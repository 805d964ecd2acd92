-- ===== src/Booking/Exclusive/Confirmed.antt =====
-- The calendar under `confirm` of backend/src/booking/booking.service.ts, which looks for another
-- booking or a closed period before a request takes its days.
use sosedi_app.Prelude.{
  All, All-every, All-mono, All-update_with, All-zip, Bool, List, Pairwise-mono,
  Pairwise-update_many, String, String-cases, [], any, any_none, ap, arith, eq_iff, false,
  find_first_only, inl, inr, refl, subst, subst₂, sym, true, update_many, update_row, ℕ, ◌&&◌, ◌==◌,
  ◌∙◌, ◌∷◌, ◌≡◌, ◌≢◌,
}
use sosedi_app.Booking.Confirm.{
  booking_competing_cancellation_reason, cancelled_row, competitors, confirm, confirm_tables,
  confirmed_row, log_competitors, other_than, write_confirm,
}
use sosedi_app.Booking.Confirm.Laws.{Confirms, confirm-Confirms}
use sosedi_app.Booking.Conflicts.{blocks_period, mentions, reserves}
use sosedi_app.Booking.Exclusive.{Apart, Clear, ClearOf, IsExclusive, Tame}
use sosedi_app.Booking.Exclusive.Rows.{update-IsExclusive}
use sosedi_app.Domain.{Booking, Db, UnavailablePeriod, overlaps}
use sosedi_app.Domain.Failure.{ok}
use sosedi_app.Domain.Status.{BookingStatus, booking_is, is_reserved}

overlaps_symm : (s e s' e' : ℕ) → overlaps s e s' e' ≡ false → overlaps s' e' s e ≡ false
overlaps_symm s e s' e' h = ground arith

-- What is known of every row when `b` is confirmed.
record Known (b x : Booking) : Type 0 where
  only : x.id ≡ b.id → x ≡ b
  free :
      x.id ≢ b.id
      → x.item_id ≡ b.item_id
      → is_reserved x.status ≡ true
      → overlaps b.start_date b.end_date x.start_date x.end_date ≡ false

free_of_test :
    (b x : Booking)
    → other_than b.id (reserves b.item_id b.start_date b.end_date) x ≡ false
    → x.id ≢ b.id
    → x.item_id ≡ b.item_id
    → is_reserved x.status ≡ true
    → overlaps b.start_date b.end_date x.start_date x.end_date ≡ false
free_of_test b x h ne item r = ground (arith, eq_iff x.id b.id, eq_iff x.item_id b.item_id)

All-Known :
    (lender_id k : String) (now : ℕ) (db db' : Db) (r : Booking)
    → IsExclusive db
    → (c : Confirms lender_id k now db db' r) → All (Known c.row) db.bookings
All-Known lender_id k now db db' r v c =
    All-zip (λ x. x.id ≡ c.row.id → x ≡ c.row)
      (λ x. other_than c.row.id (reserves c.row.item_id c.row.start_date c.row.end_date) x ≡ false)
      (Known c.row) db.bookings
      (λ x only test. record { only = only; free = free_of_test c.row x test })
      (find_first_only (λ b. b.id) _ db.bookings {r = c.row}
        (Pairwise-mono Apart (λ x y. x.id ≢ y.id) db.bookings (λ x y a. a.different) v.apart)
        c.found)
      (any_none _ db.bookings c.free)

abbrev confirm_at : Booking → Booking → Booking
confirm_at b = update_row (λ c. c.id == b.id) confirmed_row

confirm_at_self : (b x : Booking) → Known b x → x.id ≡ b.id → confirm_at b x ≡ confirmed_row b
confirm_at_self b x k e = rw ((eq_iff x.id b.id).1 e) (ap confirmed_row (k.only e))

confirm_at_other : (b x : Booking) → x.id ≢ b.id → confirm_at b x ≡ x
confirm_at_other b x ne = ground (arith, eq_iff x.id b.id)

Apart-symm : (x y : Booking) → Apart x y → Apart y x
Apart-symm x y a = record {
  different = λ e. a.different (sym e);
  disjoint = λ item ry rx.
      overlaps_symm x.start_date x.end_date y.start_date y.end_date (a.disjoint (sym item) rx ry);
}

-- The confirmed row and another one.
Apart-confirmed : (b y : Booking) → Known b y → y.id ≢ b.id → Apart (confirmed_row b) y
Apart-confirmed b y k ne = record {
  different = λ e. ne (sym e);
  disjoint = λ item _ ry. k.free ne (sym item) ry;
}

Apart-confirm_at :
    (b x y : Booking) → Known b x → Known b y → Apart x y → Apart (confirm_at b x) (confirm_at b y)
Apart-confirm_at b x y kx ky a = elim (String-cases x.id b.id) [
  | inl ex ↦ elim (String-cases y.id b.id) [
    | inl ey ↦ absurd (a.different (ex ∙ sym ey))
    | inr ny ↦
        subst₂ Apart (sym (confirm_at_self b x kx ex)) (sym (confirm_at_other b y ny))
          (Apart-confirmed b y ky ny)
  ]
  | inr nx ↦ elim (String-cases y.id b.id) [
    | inl ey ↦
        subst₂ Apart (sym (confirm_at_other b x nx)) (sym (confirm_at_self b y ky ey))
          (Apart-symm (confirmed_row b) x (Apart-confirmed b x kx nx))
    | inr ny ↦ subst₂ Apart (sym (confirm_at_other b x nx)) (sym (confirm_at_other b y ny)) a
  ]
]

ClearOf-test :
    (b : Booking) (p : UnavailablePeriod)
    → blocks_period b.item_id b.start_date b.end_date p ≡ false
    → ClearOf (confirmed_row b) p
ClearOf-test b p h item r = ground (arith, eq_iff p.item_id b.item_id)

Clear-confirm_at :
    (periods : List UnavailablePeriod) (b x : Booking)
    → any (blocks_period b.item_id b.start_date b.end_date) periods ≡ false
    → Known b x
    → Clear periods x
    → Clear periods (confirm_at b x)
Clear-confirm_at periods b x h k c = elim (String-cases x.id b.id) [
  | inl e ↦ subst (Clear periods) (sym (confirm_at_self b x k e)) (
      All-mono _ (ClearOf (confirmed_row b)) periods (ClearOf-test b)
        (any_none (blocks_period b.item_id b.start_date b.end_date) periods h))
  | inr ne ↦ subst (Clear periods) (sym (confirm_at_other b x ne)) c
]

-- The first update of `confirm`.
confirm_row-IsExclusive :
    (lender_id k : String) (now : ℕ) (db db' : Db) (r : Booking)
    → IsExclusive db
    → (c : Confirms lender_id k now db db' r)
    → IsExclusive
        (record db { bookings = update_many (λ x. x.id == c.row.id) confirmed_row db.bookings })
confirm_row-IsExclusive lender_id k now db db' r v c =
    let known = All-Known lender_id k now db db' r v c in
    record {
      apart =
          Pairwise-update_many Apart (Known c.row) (λ x. x.id == c.row.id) confirmed_row db.bookings
            (Apart-confirm_at c.row) known v.apart;
      clear =
          All-update_with (Known c.row) (Clear db.unavailable_periods)
            (Clear db.unavailable_periods) (λ x. x.id == c.row.id) confirmed_row db.bookings
            (λ x kx cx. Clear-confirm_at db.unavailable_periods c.row x c.calendar kx cx) known
            v.clear;
    }

pub Tame-cancelled :
    (reason : String) (p : Booking → Bool) (b : Booking)
    → Tame b (update_row p (cancelled_row reason) b)
Tame-cancelled reason p b = ground arith

pub log_competitors_same :
    (lender_id : String) (ids : List String) (db : Db)
    → ((log_competitors lender_id ids db).bookings ≡ db.bookings)
      × ((log_competitors lender_id ids db).unavailable_periods ≡ db.unavailable_periods)
unfolding log_competitors
log_competitors_same lender_id [] db = (refl, refl)
log_competitors_same lender_id (k ∷ ks) db = log_competitors_same lender_id ks db

-- `confirm` keeps the calendar.
pub confirm-IsExclusive :
    (lender_id k : String) (now : ℕ) (db db' : Db) (r : Booking)
    → IsExclusive db
    → confirm lender_id k now db ≡ ok (db', r)
    → IsExclusive db'
unfolding write_confirm
confirm-IsExclusive lender_id k now db db' r v e =
    let c = confirm-Confirms lender_id k now db db' r e in
    rw c.written (
      update-IsExclusive
        (record db { bookings = update_many (λ x. x.id == c.row.id) confirmed_row db.bookings })
        (write_confirm lender_id c.row (competitors c.row now db) db)
        (λ x. mentions (competitors c.row now db) x.id && booking_is BookingStatus.pending x.status)
        (cancelled_row booking_competing_cancellation_reason)
        (All-every _ _ (Tame-cancelled booking_competing_cancellation_reason _))
        (log_competitors_same lender_id (competitors c.row now db)
          (confirm_tables c.row (competitors c.row now db) db)).0
        (log_competitors_same lender_id (competitors c.row now db)
          (confirm_tables c.row (competitors c.row now db) db)).1
        (confirm_row-IsExclusive lender_id k now db db' r v c))
