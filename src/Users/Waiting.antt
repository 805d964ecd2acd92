-- ===== src/Users/Waiting.antt =====
-- The requests between two users, after one of them has blocked the other by `blockUser` of
-- backend/src/users/users.service.ts.
use sosedi_app.Prelude.{
  All, All-trivial, All-update_with, Bool, Bool-cases, List, String, false, inl, inr, refl, sym,
  true, update_row, ℕ, ◌&&◌, ◌≡◌,
}
use sosedi_app.Auth.{AuthUser}
use sosedi_app.Booking.Availability.{blocked}
use sosedi_app.Booking.Confirm.{cancelled_row}
use sosedi_app.Booking.Confirm.Competition.{mentions_within}
use sosedi_app.Booking.Conflicts.{mentions}
use sosedi_app.Domain.{Booking, Db, UserBlock, is_after}
use sosedi_app.Domain.Failure.{ok}
use sosedi_app.Domain.Status.{BookingStatus, booking_is}
use sosedi_app.Users.{
  between, block_user, booking_participant_blocked_reason, cancellable, waits_between,
}
use sosedi_app.Users.Laws.{block_user-BlocksUser}

-- After the update, a row that was listed if it waited waits no more.
row_clear :
    (blocker blocked : String) (now : ℕ) (ids : List String) (x : Booking)
    → (waits_between blocker blocked now x ≡ true → mentions ids x.id ≡ true)
    → waits_between blocker blocked now (
        update_row
          (λ b. mentions ids b.id && booking_is BookingStatus.pending b.status)
          (cancelled_row booking_participant_blocked_reason)
          x)
      ≡ false
row_clear blocker blocked now ids x listed =
    elim (Bool-cases (mentions ids x.id && booking_is BookingStatus.pending x.status)) [
      | inl t ↦ rw t refl
      | inr t ↦ rw t (
          unlisted (booking_is BookingStatus.pending x.status)
            (is_after x.expires_at now && between blocker blocked x) (mentions ids x.id) listed t)
    ]
  where
    unlisted : (p q m : Bool) → ((p && q) ≡ true → m ≡ true) → (m && p) ≡ false → (p && q) ≡ false
    unlisted false q m l t = refl
    unlisted true false m l t = refl
    unlisted true true true l t = t
    unlisted true true false l t = sym (l refl)

-- After a user has blocked another, no request of one of them to the other is left that waits for
-- its answer at that moment.
pub block_user_clears :
    (blocker blocked : String) (now : ℕ) (users : List AuthUser) (db db' : Db) (u : UserBlock)
    → block_user blocker blocked now users db ≡ ok (db', u)
    → All (λ x. waits_between blocker blocked now x ≡ false) db'.bookings
unfolding cancellable
block_user_clears blocker blocked now users db db' u e =
    let ids = cancellable blocker blocked now db in
    rw (block_user-BlocksUser blocker blocked now users db db' u e).rows (
      All-update_with (λ x. waits_between blocker blocked now x ≡ true → mentions ids x.id ≡ true)
        (λ x. Unit {0}) (λ x. waits_between blocker blocked now x ≡ false)
        (λ b. mentions ids b.id && booking_is BookingStatus.pending b.status)
        (cancelled_row booking_participant_blocked_reason) db.bookings
        (λ x listed _. row_clear blocker blocked now ids x listed)
        (mentions_within (waits_between blocker blocked now) db.bookings ids (λ k h. h))
        (All-trivial db.bookings))
