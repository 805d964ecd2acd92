-- ===== src/Booking/Availability.antt =====
-- backend/src/booking/booking-availability.service.ts: the days on which an item is not for rent.
pub mod Laws
use sosedi_app.Prelude.{Bool, String, any, delete_many, not, ◌&&◌, ◌==◌, ◌∷◌}
use sosedi_app.Booking.Conflicts.{calendar_conflicts, reservation_conflicts}
use sosedi_app.Booking.Period.{BookingPeriod, parse_booking_period}
use sosedi_app.Domain.{Db, UnavailablePeriod}
use sosedi_app.Domain.Failure.{
  Result, booking_conflict, calendar_conflict, item_not_found, ok, period_not_found, throw_if,
  unique_violation, ◌>>=◌, ◌>>◌,
}
use sosedi_app.Domain.Status.{item_approved}

abbrev pub owns_item : String → String → Db → Bool
owns_item owner item db = any (λ i. i.id == item && i.owner_id == owner) db.items

-- `requireOwnedItem`
abbrev require_owned_item : String → String → Db → Result (Unit {0})
require_owned_item owner item db = throw_if (not (owns_item owner item db)) item_not_found

-- `check`: is the item free in the period?
unfoldable pub check_availability : String → String → String → String → Db → Result Bool
unfolding parse_booking_period
check_availability item start end_text today db = do
  period ← parse_booking_period start end_text today
  throw_if (not (any (λ i. i.id == item && item_approved i.status) db.items)) item_not_found
  ok (
      not (reservation_conflicts item period.start_date period.end_date db)
      && not (calendar_conflicts item period.start_date period.end_date db))

abbrev pub blocked : String → String → BookingPeriod → UnavailablePeriod
blocked item k period = record {
  id = k;
  item_id = item;
  start_date = period.start_date;
  end_date = period.end_date;
}

-- The transaction of `create`: the owner closes a period that no booking holds.
unfoldable pub block_period :
    String → String → String → BookingPeriod → Db → Result (Db × UnavailablePeriod)
block_period owner item k period db = do
  require_owned_item owner item db
  throw_if (reservation_conflicts item period.start_date period.end_date db) booking_conflict
  throw_if (calendar_conflicts item period.start_date period.end_date db) calendar_conflict
  throw_if (any (λ p. p.id == k) db.unavailable_periods) unique_violation
  ok (
    record db { unavailable_periods = blocked item k period ∷ db.unavailable_periods },
    blocked item k period,
  )

-- `create`
unfoldable pub create_unavailable :
    String → String → String → String → String → String → Db → Result (Db × UnavailablePeriod)
unfolding parse_booking_period block_period
create_unavailable owner item k start end_text today db = do
  period ← parse_booking_period start end_text today
  block_period owner item k period db

-- `remove`
unfoldable pub remove_unavailable : String → String → String → Db → Result (Db × Unit {0})
remove_unavailable owner item k db = do
  require_owned_item owner item db
  throw_if (not (any (λ p. p.id == k && p.item_id == item) db.unavailable_periods)) period_not_found
  ok (
    record db {
      unavailable_periods =
          delete_many (λ p. p.id == k && p.item_id == item) db.unavailable_periods;
    },
    tt,
  )
