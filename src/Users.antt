-- ===== src/Users.antt =====
-- backend/src/users/users.service.ts: a user blocks another one, and their waiting requests to each
-- other are cancelled. The read of the candidates and the read of those that can still be cancelled
-- are one read here.
pub mod Laws
pub mod Waiting
use sosedi_app.Prelude.{
  Bool, List, String, [], any, delete_many, filter_rows, if◌then◌else◌, map, not, some, update_many,
  ℕ, ◌&&◌, ◌==◌, ◌||◌, ◌∷◌,
}
use sosedi_app.Auth.{AuthUser}
use sosedi_app.Booking.Availability.{blocked}
use sosedi_app.Booking.Confirm.{cancelled_row}
use sosedi_app.Booking.Conflicts.{log, mentions}
use sosedi_app.Domain.{
  Booking, Db, OutboxEvent, Transition, UserBlock, booking_event, create_event, is_after,
}
use sosedi_app.Domain.Failure.{Result, ok, own_block, throw_if, user_not_found, ◌>>=◌, ◌>>◌}
use sosedi_app.Domain.Status.{BookingStatus, booking_is}

abbrev pub booking_participant_blocked_reason : String
booking_participant_blocked_reason = "PARTICIPANT_BLOCKED"

abbrev pub is_pair : String → String → UserBlock → Bool
is_pair blocker blocked u = u.blocker_id == blocker && u.blocked_id == blocked

-- `userBlock.upsert`, which updates nothing
abbrev pub upsert_block : String → String → List UserBlock → List UserBlock
upsert_block blocker blocked blocks =
    if any (is_pair blocker blocked) blocks
    then blocks
    else record { blocker_id = blocker; blocked_id = blocked } ∷ blocks

-- The target: neither deleted nor blocked by the administration.
abbrev pub is_target : String → AuthUser → Bool
is_target blocked u = u.id == blocked && (not u.is_deleted && not u.is_blocked)

abbrev pub between : String → String → Booking → Bool
between one other b =
    (b.borrower_id == one && b.lender_id == other) || (b.borrower_id == other && b.lender_id == one)

-- A request of one of the two to the other that still waits for its answer.
abbrev pub waits_between : String → String → ℕ → Booking → Bool
waits_between blocker blocked now b =
    booking_is BookingStatus.pending b.status
    && (is_after b.expires_at now && between blocker blocked b)

-- `cancellable`, by their identifiers
unfoldable pub cancellable : String → String → ℕ → Db → List String
cancellable blocker blocked now db =
    map (λ b. b.id) (filter_rows (waits_between blocker blocked now) db.bookings)

abbrev pub block_log : String → String → Transition
block_log blocker k = record {
  booking_id = k;
  actor_id = some blocker;
  actor_type = "PARTICIPANT";
  command = "BLOCK_COUNTERPARTY";
  old_status = some BookingStatus.pending;
  new_status = BookingStatus.cancelled;
  reason = some booking_participant_blocked_reason;
}

unfoldable pub log_blocked : String → List String → Db → Db
log_blocked blocker [] db = db
log_blocked blocker (k ∷ ks) db =
    log (block_log blocker k) "Один из участников заблокировал другого. Заявка отменена."
      (log_blocked blocker ks db)

-- `notificationOutboxEvent.createMany`, where a key that is there already is an error
unfoldable pub create_events : List OutboxEvent → Db → Result Db
unfolding create_event
create_events [] db = ok db
create_events (e ∷ es) db = do db' ← create_event e db; create_events es db'

-- The rows of the block and of the bookings. The deposits are left as they are.
abbrev pub blocked_tables : String → String → List String → Db → Db
blocked_tables blocker blocked ids db = record db {
  user_blocks = upsert_block blocker blocked db.user_blocks;
  bookings =
      update_many (λ b. mentions ids b.id && booking_is BookingStatus.pending b.status)
        (cancelled_row booking_participant_blocked_reason) db.bookings;
}

-- `blockUser`
unfoldable pub block_user : String → String → ℕ → List AuthUser → Db → Result (Db × UserBlock)
unfolding cancellable log_blocked create_events
block_user blocker blocked now users db = do
  throw_if (blocker == blocked) own_block
  throw_if (not (any (is_target blocked) users)) user_not_found
  let ids = cancellable blocker blocked now db
  db' ←
      create_events (map (λ k. booking_event k "BOOKING_CANCELLED") ids)
        (log_blocked blocker ids (blocked_tables blocker blocked ids db))
  ok (db', record { blocker_id = blocker; blocked_id = blocked })

-- `unblockUser`
unfoldable pub unblock_user : String → String → Db → Db
unblock_user blocker blocked db = record db {
  user_blocks = delete_many (is_pair blocker blocked) db.user_blocks;
}
