-- ===== src/Booking/Confirm.antt =====
-- `BookingService.confirm` of backend/src/booking/booking.service.ts: the lender accepts a request
-- and the requests that compete with it are cancelled. The two reads of the booking, before and
-- after the lock on the item, are one read here.
pub mod Laws
pub mod Competition
use sosedi_app.Prelude.{
  Bool, List, Option, String, [], any, filter_rows, find_first, map, none, not, some, update_many,
  ℕ, ◌&&◌, ◌==◌, ◌∷◌,
}
use sosedi_app.Booking.Conflicts.{
  calendar_conflicts, cancel_deposits, competes, log, mentions, reserves,
}
use sosedi_app.Domain.{Booking, Db, OutboxEvent, Transition, add_events, booking_event, is_after}
use sosedi_app.Domain.Failure.{
  Result, booking_conflict, booking_not_found, calendar_conflict, invalid_booking_transition, ok,
  or_throw, throw_if, ◌>>=◌, ◌>>◌,
}
use sosedi_app.Domain.Status.{BookingStatus, booking_is}

abbrev pub lender_booking : String → String → Db → Option Booking
lender_booking lender_id k db = find_first (λ b. b.id == k && b.lender_id == lender_id) db.bookings

abbrev pub other_than : String → (Booking → Bool) → Booking → Bool
other_than k p b = not (b.id == k) && p b

abbrev pub may_confirm : ℕ → Booking → Bool
may_confirm now b = booking_is BookingStatus.pending b.status && is_after b.expires_at now

abbrev pub confirmed_row : Booking → Booking
confirmed_row b = record b {
  status = BookingStatus.confirmed;
  expires_at = none;
  cancellation_reason = none;
}

abbrev pub cancelled_row : String → Booking → Booking
cancelled_row reason b = record b {
  status = BookingStatus.cancelled;
  expires_at = none;
  cancellation_reason = some reason;
}

abbrev pub booking_competing_cancellation_reason : String
booking_competing_cancellation_reason = "COMPETING_REQUEST_CONFIRMED"

-- `competitors`, by their identifiers
unfoldable pub competitors : Booking → ℕ → Db → List String
competitors b now db =
    map (λ c. c.id)
      (filter_rows (other_than b.id (competes b.item_id b.start_date b.end_date now)) db.bookings)

-- The two updates of the bookings: the selected one, then its competitors.
unfoldable pub confirm_rows : Booking → List String → List Booking → List Booking
confirm_rows b ids rows =
    update_many (λ c. mentions ids c.id && booking_is BookingStatus.pending c.status)
      (cancelled_row booking_competing_cancellation_reason)
      (update_many (λ c. c.id == b.id) confirmed_row rows)

abbrev confirm_log : String → String → Transition
confirm_log lender_id k = record {
  booking_id = k;
  actor_id = some lender_id;
  actor_type = "LENDER";
  command = "CONFIRM";
  old_status = some BookingStatus.pending;
  new_status = BookingStatus.confirmed;
  reason = none;
}

abbrev competing_log : String → String → Transition
competing_log lender_id k = record {
  booking_id = k;
  actor_id = some lender_id;
  actor_type = "LENDER";
  command = "CANCEL_COMPETING";
  old_status = some BookingStatus.pending;
  new_status = BookingStatus.cancelled;
  reason = some booking_competing_cancellation_reason;
}

unfoldable pub log_competitors : String → List String → Db → Db
log_competitors lender_id [] db = db
log_competitors lender_id (k ∷ ks) db =
    log (competing_log lender_id k) "Владелец подтвердил другую заявку на эти даты."
      (log_competitors lender_id ks db)

abbrev pub confirm_events : String → List String → List OutboxEvent
confirm_events k ids =
    booking_event k "BOOKING_CONFIRMED"
    ∷ map (λ i. booking_event i "BOOKING_COMPETING_CANCELLED") ids

-- The updates of the rows, and the events.
abbrev pub confirm_tables : Booking → List String → Db → Db
confirm_tables b ids db = record db {
  bookings = confirm_rows b ids db.bookings;
  deposits = cancel_deposits ids db.deposits;
  outbox = add_events (confirm_events b.id ids) db.outbox;
}

-- The writes of `confirm`.
unfoldable pub write_confirm : String → Booking → List String → Db → Db
unfolding confirm_rows log_competitors
write_confirm lender_id b ids db =
    log (confirm_log lender_id b.id) "Владелец подтвердил заявку."
      (log_competitors lender_id ids (confirm_tables b ids db))

-- `BookingService.confirm`
unfoldable pub confirm : String → String → ℕ → Db → Result (Db × Booking)
unfolding competitors write_confirm
confirm lender_id k now db = do
  b ← or_throw (lender_booking lender_id k db) booking_not_found
  throw_if (not (may_confirm now b)) invalid_booking_transition
  throw_if (calendar_conflicts b.item_id b.start_date b.end_date db) calendar_conflict
  throw_if (any (other_than b.id (reserves b.item_id b.start_date b.end_date)) db.bookings)
      booking_conflict
  ok (write_confirm lender_id b (competitors b now db) db, confirmed_row b)
