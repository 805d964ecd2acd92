-- ===== src/Booking/Create/Limits.antt =====
-- The row that `create` of backend/src/booking/booking.service.ts writes.
use sosedi_app.Prelude.{
  Bool, Bool-cases, List, ap, arith, count_where, false, inl, inr, leb, sym, ℕ, ◌+◌, ◌==◌, ◌∙◌, ◌∷◌,
  ◌≡◌, ◌≤◌, ◌⊎◌,
}
use sosedi_app.Booking.Conflicts.{calendar_conflicts, reservation_conflicts}
use sosedi_app.Booking.Create.{active_pending, create, new_booking}
use sosedi_app.Booking.Create.Gate.{CreateContext}
use sosedi_app.Booking.Create.Laws.{Creates, Repeats, create-cases}
use sosedi_app.Booking.Period.{BookingPeriod, parse_booking_period}
use sosedi_app.Domain.{Booking, Db}
use sosedi_app.Domain.Failure.{ok}
use sosedi_app.Domain.Status.{BookingStatus}

-- A request that was created now.
pub record IsFresh (c : CreateContext) (db db' : Db) (r : Booking) : Type 0 where
  pub first_row : db'.bookings ≡ r ∷ db.bookings
  pub period : BookingPeriod
  pub allowed : parse_booking_period c.dto.start_date c.dto.end_date c.today ≡ ok period
  pub waits : r.status ≡ BookingStatus.pending
  pub borrower : r.borrower_id ≡ c.borrower_id
  pub not_own : r.lender_id == c.borrower_id ≡ false
  pub start_kept : r.start_date ≡ period.start_date
  pub end_kept : r.end_date ≡ period.end_date
  pub open_days : reservation_conflicts r.item_id r.start_date r.end_date db ≡ false
  pub open_calendar : calendar_conflicts r.item_id r.start_date r.end_date db ≡ false
  pub within_limit : count_where (active_pending c.borrower_id c.now) db'.bookings ≤ 5

not_full : (n : ℕ) → leb 5 n ≡ false → n + 1 ≤ 5
not_full n h = ground arith

at_most_one_more :
    (p : Booking → Bool) (b : Booking) (rows : List Booking) (n : ℕ)
    → count_where p rows + 1 ≤ n
    → count_where p (b ∷ rows) ≤ n
at_most_one_more p b rows n h = elim (Bool-cases (p b)) [
  | inl t ↦ rw t (ground arith)
  | inr t ↦ rw t (ground arith)
]

-- A creation that succeeds either answers a request that the borrower made before with the same
-- content, and writes nothing; or puts a pending request in front of the bookings, for days that no
-- booking and no closed period of the item holds, of an item of another owner. The borrower then has
-- at most five requests that wait.
pub create-IsFresh :
    (c : CreateContext) (db db' : Db) (r : Booking)
    → create c db ≡ ok (db', r)
    → Repeats c db db' r ⊎ IsFresh c db db' r
unfolding new_booking
create-IsFresh c db db' r e = elim (create-cases c db db' r e) [
  | inl s ↦ inl s
  | inr s ↦ inr (fresh s)
]
  where
    fresh : Creates c db db' r → IsFresh c db db' r
    fresh s =
        let rows : db'.bookings ≡ r ∷ db.bookings =
          ap (λ d. d.bookings) s.written ∙ ap (λ x. x ∷ db.bookings) (sym s.result) in
        record {
          first_row = rows;
          period = s.period;
          allowed = s.dates;
          waits = ap (λ b. b.status) s.result;
          borrower = ap (λ b. b.borrower_id) s.result;
          not_own = rw s.result s.passes.not_own;
          start_kept = ap (λ b. b.start_date) s.result;
          end_kept = ap (λ b. b.end_date) s.result;
          open_days = rw s.result s.passes.free;
          open_calendar = rw s.result s.passes.open_calendar;
          within_limit = rw rows (
              at_most_one_more (active_pending c.borrower_id c.now) r db.bookings 5
                (not_full _ s.few));
        }
