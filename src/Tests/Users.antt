-- ===== src/Tests/Users.antt =====
-- Boris blocks Anna, whose request waits for his answer.
use sosedi_app.Prelude.{All, [], false, map, refl, ◌∷◌, ◌≡◌}
use sosedi_app.Auth.{AuthUser}
use sosedi_app.Booking.Create.{create}
use sosedi_app.Domain.{Db, booking_event}
use sosedi_app.Domain.Failure.{commit, ok}
use sosedi_app.Domain.Status.{BookingStatus}
use sosedi_app.Payments.Policy.{assert_deposit_allowed}
use sosedi_app.Tests.Data.{minute, requested}
use sosedi_app.Users.{block_user, waits_between}
use sosedi_app.Users.Waiting.{block_user_clears}

abbrev anna_as_user : AuthUser
anna_as_user = record {
  id = "anna";
  phone = "+79001234567";
  is_blocked = false;
  is_deleted = false;
  session_version = 1;
}

abbrev blocked_db : Db
blocked_db = commit requested (block_user "boris" "anna" minute (anna_as_user ∷ []) requested)

blocks_anna :
    block_user "boris" "anna" minute (anna_as_user ∷ []) requested
    ≡ ok (blocked_db, record { blocker_id = "boris"; blocked_id = "anna" })
unfolding create block_user assert_deposit_allowed booking_event
blocks_anna = refl

block_user_clears_example :
    All (λ x. waits_between "boris" "anna" minute x ≡ false) blocked_db.bookings
block_user_clears_example =
    block_user_clears "boris" "anna" minute (anna_as_user ∷ []) requested blocked_db
      (record { blocker_id = "boris"; blocked_id = "anna" }) blocks_anna

-- Anna's request is cancelled, and Vera's waits on.
blocked_statuses :
    map (λ b. b.status) blocked_db.bookings ≡ BookingStatus.pending ∷ BookingStatus.cancelled ∷ []
unfolding create block_user assert_deposit_allowed booking_event
blocked_statuses = refl
