-- ===== src/Booking/Exclusive/Rows.antt =====
-- The calendar under changes of single rows.
use sosedi_app.Prelude.{
  All, All-mono, All-update_with, Bool, List, Pairwise-update_many, sym, update_many, update_row,
  ◌∙◌, ◌≡◌,
}
use sosedi_app.Booking.Exclusive.{Apart, Clear, ClearOf, IsExclusive, Tame}
use sosedi_app.Domain.{Booking, Db, UnavailablePeriod}

pub Apart-Tame : (x x' y y' : Booking) → Tame x x' → Tame y y' → Apart x y → Apart x' y'
Apart-Tame x x' y y' s t a = record {
  different = λ e. a.different (sym s.same_id ∙ e ∙ t.same_id);
  disjoint = λ item rx ry.
      let free =
        a.disjoint (sym s.same_item ∙ item ∙ t.same_item) (s.reserved rx) (t.reserved ry) in
      rw (s.same_start, s.same_end, t.same_start, t.same_end) free;
}

ClearOf-Tame : (b b' : Booking) (p : UnavailablePeriod) → Tame b b' → ClearOf b p → ClearOf b' p
ClearOf-Tame b b' p t c item r =
    rw (t.same_start, t.same_end) (c (item ∙ t.same_item) (t.reserved r))

pub Clear-Tame :
    (periods : List UnavailablePeriod) (b b' : Booking)
    → Tame b b'
    → Clear periods b
    → Clear periods b'
Clear-Tame periods b b' t c =
    All-mono (ClearOf b) (ClearOf b') periods (λ p. ClearOf-Tame b b' p t) c

-- An update of rows that reserves nothing new keeps the invariant.
pub update-IsExclusive :
    (db db' : Db) (p : Booking → Bool) (f : Booking → Booking)
    → All (λ b. Tame b (update_row p f b)) db.bookings
    → db'.bookings ≡ update_many p f db.bookings
    → db'.unavailable_periods ≡ db.unavailable_periods
    → IsExclusive db
    → IsExclusive db'
update-IsExclusive db db' p f tame e u v = record {
  apart = rw e (
      Pairwise-update_many Apart (λ b. Tame b (update_row p f b)) p f db.bookings
        (λ x y s t a. Apart-Tame x _ y _ s t a) tame v.apart);
  clear =
      rw (e, u)
        (All-update_with (λ b. Tame b (update_row p f b)) (Clear db.unavailable_periods)
          (Clear db.unavailable_periods) p f db.bookings
          (λ b t c. Clear-Tame db.unavailable_periods b _ t c) tame v.clear);
}

-- A change of other tables keeps it.
pub same-IsExclusive :
    (db db' : Db)
    → db'.bookings ≡ db.bookings
    → db'.unavailable_periods ≡ db.unavailable_periods
    → IsExclusive db
    → IsExclusive db'
same-IsExclusive db db' e u v = record { apart = rw e v.apart; clear = rw (e, u) v.clear }
