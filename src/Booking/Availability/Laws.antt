-- ===== src/Booking/Availability/Laws.antt =====
-- What the commands on closed periods have found and written.
use sosedi_app.Prelude.{
  not-false, String, any, delete_many, false, not, sym, true, ◌&&◌, ◌==◌, ◌∷◌, ◌≡◌,
}
use sosedi_app.Booking.Availability.{block_period, blocked, owns_item, remove_unavailable}
use sosedi_app.Booking.Conflicts.{calendar_conflicts, reservation_conflicts}
use sosedi_app.Booking.Period.{BookingPeriod}
use sosedi_app.Domain.{Db, UnavailablePeriod}
use sosedi_app.Domain.Failure.{item_not_found, ok, ok-pair, period_not_found, throw_if-eq-ok}

pub record Blocks (owner item k : String) (period : BookingPeriod) (db db' : Db)
    (r : UnavailablePeriod) : Type 0 where
  pub owned : owns_item owner item db ≡ true
  pub free : reservation_conflicts item period.start_date period.end_date db ≡ false
  pub open_calendar : calendar_conflicts item period.start_date period.end_date db ≡ false
  pub written :
      db' ≡ record db { unavailable_periods = blocked item k period ∷ db.unavailable_periods }
  pub result : r ≡ blocked item k period

pub block-Blocks :
    (owner item k : String) (period : BookingPeriod) (db db' : Db) (r : UnavailablePeriod)
    → block_period owner item k period db ≡ ok (db', r)
    → Blocks owner item k period db db' r
unfolding block_period
block-Blocks owner item k period db db' r e =
    let (h1, e1) = throw_if-eq-ok _ _ _ e in
    let (h2, e2) = throw_if-eq-ok _ _ _ e1 in
    let (h3, e3) = throw_if-eq-ok _ _ _ e2 in
    let (h4, e4) = throw_if-eq-ok _ _ _ e3 in
    record {
      owned = not-false _ h1;
      free = h2;
      open_calendar = h3;
      written = sym (ok-pair e4).0;
      result = sym (ok-pair e4).1;
    }

pub unblock_written :
    (owner item k : String) (db db' : Db) (u : Unit {0})
    → remove_unavailable owner item k db ≡ ok (db', u)
    → db' ≡ record db {
      unavailable_periods =
          delete_many (λ p. p.id == k && p.item_id == item) db.unavailable_periods;
    }
unfolding remove_unavailable
unblock_written owner item k db db' u e =
    let (h1, e1) = throw_if-eq-ok (not (owns_item owner item db)) item_not_found _ e in
    let (h2, e2) =
      throw_if-eq-ok (not (any (λ p. p.id == k && p.item_id == item) db.unavailable_periods))
        period_not_found
        (ok (
          record db {
            unavailable_periods =
                delete_many (λ p. p.id == k && p.item_id == item) db.unavailable_periods;
          },
          tt,
        ))
        e1 in
    sym (ok-pair e2).0
