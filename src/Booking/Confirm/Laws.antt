-- ===== src/Booking/Confirm/Laws.antt =====
-- What a successful `confirm` has found, and what it wrote.
use sosedi_app.Prelude.{not-false, String, any, false, some, sym, true, ℕ, ◌≡◌}
use sosedi_app.Booking.Confirm.{
  competitors, confirm, confirmed_row, lender_booking, may_confirm, other_than, write_confirm,
}
use sosedi_app.Booking.Conflicts.{calendar_conflicts, reserves}
use sosedi_app.Domain.{Booking, Db}
use sosedi_app.Domain.Failure.{ok, ok-pair, or_throw-eq-ok, throw_if-eq-ok}

pub record Confirms (lender_id k : String) (now : ℕ) (db db' : Db) (r : Booking) : Type 0 where
  pub row : Booking
  pub found : lender_booking lender_id k db ≡ some row
  pub waiting : may_confirm now row ≡ true
  pub calendar : calendar_conflicts row.item_id row.start_date row.end_date db ≡ false
  pub free :
      any (other_than row.id (reserves row.item_id row.start_date row.end_date)) db.bookings ≡ false
  pub written : db' ≡ write_confirm lender_id row (competitors row now db) db
  pub result : r ≡ confirmed_row row

pub confirm-Confirms :
    (lender_id k : String) (now : ℕ) (db db' : Db) (r : Booking)
    → confirm lender_id k now db ≡ ok (db', r)
    → Confirms lender_id k now db db' r
unfolding confirm
confirm-Confirms lender_id k now db db' r e =
    let (b, found, e1) = or_throw-eq-ok _ _ _ e in
    let (waiting, e2) = throw_if-eq-ok _ _ _ e1 in
    let (calendar, e3) = throw_if-eq-ok _ _ _ e2 in
    let (free, e4) = throw_if-eq-ok _ _ _ e3 in
    record {
      row = b;
      found = found;
      waiting = not-false _ waiting;
      calendar = calendar;
      free = free;
      written = sym (ok-pair e4).0;
      result = sym (ok-pair e4).1;
    }
