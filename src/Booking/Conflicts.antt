-- ===== src/Booking/Conflicts.antt =====
-- The conditions on dates that backend/src/booking/booking.service.ts and
-- booking-availability.service.ts put to the database, and the log that each change of a booking
-- leaves.
use sosedi_app.Prelude.{Bool, List, String, any, update_many, ℕ, ◌&&◌, ◌==◌, ◌∷◌}
use sosedi_app.Domain.{
  Booking, BookingDeposit, Db, Transition, UnavailablePeriod, is_after, overlaps,
}
use sosedi_app.Domain.Status.{BookingStatus, DepositStatus, booking_is, deposit_is, is_reserved}

-- `itemUnavailablePeriod.findFirst` over a period of an item
abbrev pub blocks_period : String → ℕ → ℕ → UnavailablePeriod → Bool
blocks_period item first last p = p.item_id == item && overlaps first last p.start_date p.end_date

abbrev pub calendar_conflicts : String → ℕ → ℕ → Db → Bool
calendar_conflicts item first last db = any (blocks_period item first last) db.unavailable_periods

-- A booking of the item that holds a day of the period.
abbrev pub reserves : String → ℕ → ℕ → Booking → Bool
reserves item first last b =
    b.item_id == item && (overlaps first last b.start_date b.end_date && is_reserved b.status)

abbrev pub reservation_conflicts : String → ℕ → ℕ → Db → Bool
reservation_conflicts item first last db = any (reserves item first last) db.bookings

-- A request for a day of the period that still waits for its answer.
abbrev pub competes : String → ℕ → ℕ → ℕ → Booking → Bool
competes item first last now b =
    b.item_id == item
    && (booking_is BookingStatus.pending b.status
        && (is_after b.expires_at now && overlaps first last b.start_date b.end_date))

-- `bookingTransitionHistory.create` and `bookingMessage.create` with a message of the system
abbrev pub log : Transition → String → Db → Db
log t body db = record db {
  transitions = t ∷ db.transitions;
  messages = record { booking_id = t.booking_id; body = body } ∷ db.messages;
}

abbrev pub mentions : List String → String → Bool
mentions ids k = any (λ i. i == k) ids

-- `bookingDeposit.updateMany` that cancels the pending deposits of some bookings
abbrev pub cancel_deposits : List String → List BookingDeposit → List BookingDeposit
cancel_deposits ids =
    update_many (λ d. mentions ids d.booking_id && deposit_is DepositStatus.pending d.status)
      (λ d. record d { status = DepositStatus.cancelled })
