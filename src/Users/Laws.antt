-- ===== src/Users/Laws.antt =====
-- What `blockUser` of backend/src/users/users.service.ts writes.
use sosedi_app.Prelude.{
  All-every, List, String, [], any, ap, map, not, refl, sym, ℕ, ◌&&◌, ◌==◌, ◌∙◌, ◌∷◌, ◌≡◌,
}
use sosedi_app.Auth.{AuthUser}
use sosedi_app.Booking.Availability.{blocked}
use sosedi_app.Booking.Change.{Keeps, update-Keeps}
use sosedi_app.Booking.Change.Steps.{Kept-cancelled}
use sosedi_app.Booking.Confirm.{cancelled_row}
use sosedi_app.Booking.Conflicts.{mentions}
use sosedi_app.Booking.Exclusive.{IsExclusive}
use sosedi_app.Booking.Exclusive.Confirmed.{Tame-cancelled}
use sosedi_app.Booking.Exclusive.Rows.{update-IsExclusive}
use sosedi_app.Domain.{Db, OutboxEvent, UserBlock, booking_event, create_event}
use sosedi_app.Domain.Failure.{
  >>=-eq-ok, ok, ok-injective, ok-pair, own_block, throw_if-eq-ok, user_not_found,
}
use sosedi_app.Domain.Laws.{create_event-eq-ok}
use sosedi_app.Domain.Status.{BookingStatus, booking_is}
use sosedi_app.Users.{
  block_user, blocked_tables, booking_participant_blocked_reason, cancellable, create_events,
  is_target, log_blocked,
}

-- The bookings after a block, and the tables that it leaves.
pub record BlocksUser (blocker blocked : String) (now : ℕ) (db db' : Db) : Type 0 where
  pub rows :
      db'.bookings
      ≡ (blocked_tables blocker blocked (cancellable blocker blocked now db) db).bookings
  pub deposits : db'.deposits ≡ db.deposits
  pub periods : db'.unavailable_periods ≡ db.unavailable_periods

-- The tables that events and the log leave.
record Beside (db db' : Db) : Type 0 where
  rows : db'.bookings ≡ db.bookings
  deposits : db'.deposits ≡ db.deposits
  periods : db'.unavailable_periods ≡ db.unavailable_periods

create_events-Beside :
    (es : List OutboxEvent) (db db' : Db) → create_events es db ≡ ok db' → Beside db db'
unfolding create_events
create_events-Beside [] db db' e =
    rw (sym (ok-injective e)) (record { rows = refl; deposits = refl; periods = refl })
create_events-Beside (x ∷ es) db db' e =
    let (db1, w, e1) = >>=-eq-ok (create_event x db) (create_events es) e in
    let (_, same) = create_event-eq-ok x db db1 w in
    let rest = create_events-Beside es db1 db' e1 in
    record {
      rows = rest.rows ∙ ap (λ d. d.bookings) same;
      deposits = rest.deposits ∙ ap (λ d. d.deposits) same;
      periods = rest.periods ∙ ap (λ d. d.unavailable_periods) same;
    }

log_blocked-Beside :
    (blocker : String) (ids : List String) (db : Db) → Beside db (log_blocked blocker ids db)
unfolding log_blocked
log_blocked-Beside blocker [] db = record { rows = refl; deposits = refl; periods = refl }
log_blocked-Beside blocker (k ∷ ks) db =
    let rest = log_blocked-Beside blocker ks db in
    record { rows = rest.rows; deposits = rest.deposits; periods = rest.periods }

pub block_user-BlocksUser :
    (blocker blocked : String) (now : ℕ) (users : List AuthUser) (db db' : Db) (u : UserBlock)
    → block_user blocker blocked now users db ≡ ok (db', u)
    → BlocksUser blocker blocked now db db'
unfolding block_user
block_user-BlocksUser blocker blocked now users db db' u e =
    let (_, e1) = throw_if-eq-ok (blocker == blocked) own_block _ e in
    let (_, e2) = throw_if-eq-ok (not (any (is_target blocked) users)) user_not_found _ e1 in
    let ids = cancellable blocker blocked now db in
    let (db1, w, e3) =
      >>=-eq-ok
        (create_events (map (λ k. booking_event k "BOOKING_CANCELLED") ids)
          (log_blocked blocker ids (blocked_tables blocker blocked ids db)))
        (λ d. ok (d, record { blocker_id = blocker; blocked_id = blocked })) e2 in
    let sent =
      create_events-Beside (map (λ k. booking_event k "BOOKING_CANCELLED") ids)
        (log_blocked blocker ids (blocked_tables blocker blocked ids db)) db1 w in
    let logged = log_blocked-Beside blocker ids (blocked_tables blocker blocked ids db) in
    let same : db' ≡ db1 = sym (ok-pair e3).0 in
    record {
      rows = ap (λ d. d.bookings) same ∙ sent.rows ∙ logged.rows;
      deposits = ap (λ d. d.deposits) same ∙ sent.deposits ∙ logged.deposits;
      periods = ap (λ d. d.unavailable_periods) same ∙ sent.periods ∙ logged.periods;
    }

pub block_user-IsExclusive :
    (blocker blocked : String) (now : ℕ) (users : List AuthUser) (db db' : Db) (u : UserBlock)
    → IsExclusive db
    → block_user blocker blocked now users db ≡ ok (db', u)
    → IsExclusive db'
block_user-IsExclusive blocker blocked now users db db' u v e =
    let s = block_user-BlocksUser blocker blocked now users db db' u e in
    update-IsExclusive db db'
      (λ b.
        mentions (cancellable blocker blocked now db) b.id
        && booking_is BookingStatus.pending b.status)
      (cancelled_row booking_participant_blocked_reason)
      (All-every _ _ (Tame-cancelled booking_participant_blocked_reason _)) s.rows s.periods v

pub block_user-Keeps :
    (blocker blocked : String) (now : ℕ) (users : List AuthUser) (db db' : Db) (u : UserBlock)
    → block_user blocker blocked now users db ≡ ok (db', u)
    → Keeps db db'
block_user-Keeps blocker blocked now users db db' u e =
    update-Keeps db db' _ (cancelled_row booking_participant_blocked_reason) (λ x. refl)
      (All-every _ db.bookings
        (Kept-cancelled booking_participant_blocked_reason (cancellable blocker blocked now db)))
      (block_user-BlocksUser blocker blocked now users db db' u e).rows
