-- ===== src/Booking/Period.antt =====
-- backend/src/booking/booking-period.ts: the dates that a booking may have. A day is its number
-- since 0000-01-01; `today` is the calendar date of Moscow.
pub mod Laws
use sosedi_app.Prelude.{String, [], ltb, some, ℕ, ◌+◌, ◌-◌}
use sosedi_app.Domain.Failure.{
  Result, bad_date, beyond_horizon, end_before_start, err, ok, period_too_long, start_in_past,
  throw_if, ◌>>=◌, ◌>>◌,
}
use sosedi_app.Text.{codes, date_prefix}

pub record BookingPeriod : Type 0 where
  pub start_date : ℕ
  pub end_date : ℕ
  pub days : ℕ

abbrev pub booking_max_days : ℕ
booking_max_days = 30

abbrev pub booking_horizon_days : ℕ
booking_horizon_days = 90

-- `parseCalendarDate`
unfoldable pub parse_calendar_date : String → Result ℕ
unfolding date_prefix
parse_calendar_date value = elim (date_prefix (codes value)) [
  | some (day, []) ↦ ok day
  | _ ↦ err bad_date
]

-- `parseBookingPeriod`, once its texts are read
unfoldable pub check_period : ℕ → ℕ → ℕ → Result BookingPeriod
check_period start_date end_date today = do
  throw_if (ltb start_date today) start_in_past
  throw_if (ltb end_date start_date) end_before_start
  throw_if (ltb booking_max_days (end_date - start_date + 1)) period_too_long
  throw_if (ltb booking_horizon_days (start_date - today)) beyond_horizon
  ok (record { start_date = start_date; end_date = end_date; days = end_date - start_date + 1 })

-- `parseBookingPeriod`
unfoldable pub parse_booking_period : String → String → String → Result BookingPeriod
unfolding parse_calendar_date check_period
parse_booking_period start end_text today = do
  start_date ← parse_calendar_date start
  end_date ← parse_calendar_date end_text
  today_date ← parse_calendar_date today
  check_period start_date end_date today_date
