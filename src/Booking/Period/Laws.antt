-- ===== src/Booking/Period/Laws.antt =====
-- `parseBookingPeriod` of backend/src/booking/booking-period.ts.
use sosedi_app.Prelude.{arith, false, ltb, refl, ℕ, ◌+◌, ◌-◌, ◌↔◌, ◌≡◌, ◌≤◌}
use sosedi_app.Booking.Period.{BookingPeriod, booking_horizon_days, booking_max_days, check_period}
use sosedi_app.Domain.Failure.{
  beyond_horizon, end_before_start, ok, period_too_long, start_in_past, throw_if-eq-ok,
}

-- The check accepts a period if, and only if, it starts today or later, at most 90 days from now,
-- does not end before it starts, and has at most 30 days, its first and last day counted.
pub check_period_lem :
    (start_date end_date today : ℕ)
    → ((p : BookingPeriod) × (check_period start_date end_date today ≡ ok p)) ↔ (
        (today ≤ start_date)
        × (start_date ≤ end_date)
        × (end_date + 1 ≤ start_date + 30)
        × (start_date ≤ today + 90))
unfolding check_period
check_period_lem s e t = (λ (p, h). allowed p h, λ (a, b, c, d). (_, accepted a b c d))
  where
    allowed :
        (p : BookingPeriod)
        → check_period s e t ≡ ok p
        → (t ≤ s) × (s ≤ e) × (e + 1 ≤ s + 30) × (s ≤ t + 90)
    allowed p h =
        let (h1, e1) = throw_if-eq-ok (ltb s t) start_in_past _ h in
        let (h2, e2) = throw_if-eq-ok (ltb e s) end_before_start _ e1 in
        let (h3, e3) = throw_if-eq-ok (ltb 30 (e - s + 1)) period_too_long _ e2 in
        let (h4, e4) =
          throw_if-eq-ok (ltb 90 (s - t)) beyond_horizon
            (ok (record { start_date = s; end_date = e; days = e - s + 1 })) e3 in
        (below s t h1, below e s h2, length_bound h3 (below e s h2), horizon h4 (below s t h1))
      where
        below : (n m : ℕ) → ltb n m ≡ false → m ≤ n
        below n m h = ground arith

        length_bound : ltb 30 (e - s + 1) ≡ false → s ≤ e → e + 1 ≤ s + 30
        length_bound h g = ground arith

        horizon : ltb 90 (s - t) ≡ false → t ≤ s → s ≤ t + 90
        horizon h g = ground arith

    accepted :
        t ≤ s
        → s ≤ e
        → e + 1 ≤ s + 30
        → s ≤ t + 90
        → check_period s e t ≡ ok (record { start_date = s; end_date = e; days = e - s + 1 })
    accepted a b c d = rw (check_period, above s t a, above e s b, short c, near d) refl
      where
        above : (n m : ℕ) → m ≤ n → ltb n m ≡ false
        above n m h = ground arith

        short : e + 1 ≤ s + 30 → ltb booking_max_days (e - s + 1) ≡ false
        short h = ground arith

        near : s ≤ t + 90 → ltb booking_horizon_days (s - t) ≡ false
        near h = ground arith
