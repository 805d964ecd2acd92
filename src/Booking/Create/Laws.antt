-- ===== src/Booking/Create/Laws.antt =====
-- What a successful `create` has found, and what it wrote.
use sosedi_app.Prelude.{
  Bool-cases, List, Option, any, count_where, false, inl, inr, leb, ltb, none, refl, some, subst,
  sym, true, ◌&&◌, ◌==◌, ◌∙◌, ◌∷◌, ◌≡◌, ◌⊎◌,
}
use sosedi_app.Prelude.Int.{pos}
use sosedi_app.Booking.Conflicts.{calendar_conflicts, competes, reservation_conflicts}
use sosedi_app.Booking.Create.{
  active_pending, answer, blocks_interaction, booking_max_active_pending,
  booking_max_competing_pending, check_item, create, create_new, created_tables, find_repeated,
  has_hash, insert_booking, new_booking, new_deposits, offered_item,
}
use sosedi_app.Booking.Create.Gate.{CreateContext, require_acceptance, require_approved_terms}
use sosedi_app.Booking.Create.Quote.{Offer, deposit_of_item, make_offer}
use sosedi_app.Booking.Period.{BookingPeriod, parse_booking_period}
use sosedi_app.Domain.{Booking, BookingDeposit, Db, Item, booking_event, create_event}
use sosedi_app.Domain.Failure.{>>=-eq-ok, ok, ok-pair, or_throw-eq-ok, throw_if-eq-ok, throw_if-ok}
use sosedi_app.Domain.Laws.{create_event-eq-ok}
use sosedi_app.Payments.Policy.{assert_deposit_allowed, is_pay_on_handover}

-- What the checks on the item have found.
pub record Passes (c : CreateContext) (item : Item) (period : BookingPeriod) (db : Db)
    : Type 0 where
  pub not_own : item.owner_id == c.borrower_id ≡ false
  pub supported :
      (is_pay_on_handover c.policy.payment_scenario && ltb 0 (deposit_of_item item)) ≡ false
  pub allowed : assert_deposit_allowed c.policy (pos (deposit_of_item item)) ≡ ok tt
  pub unblocked : any (blocks_interaction c.borrower_id item.owner_id) db.user_blocks ≡ false
  pub open_calendar : calendar_conflicts item.id period.start_date period.end_date db ≡ false
  pub free : reservation_conflicts item.id period.start_date period.end_date db ≡ false
  pub few :
      leb booking_max_competing_pending
        (count_where (competes item.id period.start_date period.end_date c.now) db.bookings)
      ≡ false

unit_eq : (u : Unit {0}) → u ≡ tt
unit_eq u = refl

check_item-Passes :
    (c : CreateContext) (item : Item) (period : BookingPeriod) (db : Db)
    → check_item c item period db ≡ ok tt
    → Passes c item period db
unfolding check_item
check_item-Passes c item period db e =
    let (h1, e1) = throw_if-eq-ok _ _ _ e in
    let (h2, e2) = throw_if-eq-ok _ _ _ e1 in
    let (u, h3, e3) =
      >>=-eq-ok (assert_deposit_allowed c.policy (pos (deposit_of_item item))) _ e2 in
    let (h4, e4) = throw_if-eq-ok _ _ _ e3 in
    let (h5, e5) = throw_if-eq-ok _ _ _ e4 in
    let (h6, e6) = throw_if-eq-ok _ _ _ e5 in
    record {
      not_own = h1;
      supported = h2;
      allowed = h3;
      unblocked = h4;
      open_calendar = h5;
      free = h6;
      few = throw_if-ok _ _ e6;
    }

-- A booking that was made now.
pub record Creates (c : CreateContext) (db db' : Db) (r : Booking) : Type 0 where
  pub period : BookingPeriod
  pub item : Item
  pub offer : Offer
  pub deposits : List BookingDeposit
  pub dates : parse_booking_period c.dto.start_date c.dto.end_date c.today ≡ ok period
  pub few :
      leb booking_max_active_pending (count_where (active_pending c.borrower_id c.now) db.bookings)
      ≡ false
  pub offered : offered_item c.dto.item_id db ≡ some item
  pub passes : Passes c item period db
  pub made : make_offer c item period ≡ ok offer
  pub fresh : any (λ b. b.id == c.booking_id) db.bookings ≡ false
  pub deposited : new_deposits c offer db.deposits ≡ ok deposits
  pub written : db' ≡ record (created_tables c item period offer deposits db) {
    outbox = booking_event c.booking_id "BOOKING_CREATED" ∷ db.outbox;
  }
  pub result : r ≡ new_booking c item period offer

create_new-Creates :
    (c : CreateContext) (period : BookingPeriod) (db db' : Db) (r : Booking)
    → parse_booking_period c.dto.start_date c.dto.end_date c.today ≡ ok period
    → create_new c period db ≡ ok (db', r)
    → Creates c db db' r
unfolding create_new insert_booking
create_new-Creates c period db db' r dates e =
    let (few, e1) = throw_if-eq-ok _ _ _ e in
    let (item, offered, e2) = or_throw-eq-ok _ _ _ e1 in
    let (u, passes, e3) = >>=-eq-ok (check_item c item period db) _ e2 in
    let (offer, made, e4) = >>=-eq-ok (make_offer c item period) _ e3 in
    let (fresh, e5) = throw_if-eq-ok _ _ _ e4 in
    let (deposits, deposited, e6) = >>=-eq-ok (new_deposits c offer db.deposits) _ e5 in
    let (db'', w, e7) =
      >>=-eq-ok
        (create_event (booking_event c.booking_id "BOOKING_CREATED")
          (created_tables c item period offer deposits db))
        _ e6 in
    let (new, same) =
      create_event-eq-ok (booking_event c.booking_id "BOOKING_CREATED")
        (created_tables c item period offer deposits db) db'' w in
    record {
      period = period;
      item = item;
      offer = offer;
      deposits = deposits;
      dates = dates;
      few = few;
      offered = offered;
      passes = check_item-Passes c item period db passes;
      made = made;
      fresh = fresh;
      deposited = deposited;
      written = sym (ok-pair e7).0 ∙ same;
      result = sym (ok-pair e7).1;
    }

-- The answer to a repeated request.
pub record Repeats (c : CreateContext) (db db' : Db) (r : Booking) : Type 0 where
  pub found : find_repeated c.borrower_id c.request_id db ≡ some r
  pub same_hash : has_hash c.request_hash r ≡ true
  pub unchanged : db' ≡ db

repeated_case :
    (c : CreateContext) (period : BookingPeriod) (b : Booking) (db db' : Db) (r : Booking)
    → find_repeated c.borrower_id c.request_id db ≡ some b
    → answer c period db (some b) ≡ ok (db', r)
    → Repeats c db db' r
repeated_case c period b db db' r found e = elim (Bool-cases (has_hash c.request_hash b)) [
  | inl t ↦
      let (same_db, same) = ok-pair (rw (t, answer) at e) in
      record {
        found = subst (λ x. find_repeated c.borrower_id c.request_id db ≡ some x) same found;
        same_hash = subst (λ x. has_hash c.request_hash x ≡ true) same t;
        unchanged = sym same_db;
      }
  | inr t ↦ cc (rw (t, answer) at e)
]

answered_case :
    (c : CreateContext) (period : BookingPeriod) (db db' : Db) (r : Booking) (o : Option Booking)
    → parse_booking_period c.dto.start_date c.dto.end_date c.today ≡ ok period
    → find_repeated c.borrower_id c.request_id db ≡ o
    → answer c period db o ≡ ok (db', r)
    → Repeats c db db' r ⊎ Creates c db db' r
answered_case c period db db' r none dates found e =
    inr (create_new-Creates c period db db' r dates e)
answered_case c period db db' r (some b) dates found e =
    inl (repeated_case c period b db db' r found e)

pub create-cases :
    (c : CreateContext) (db db' : Db) (r : Booking)
    → create c db ≡ ok (db', r)
    → Repeats c db db' r ⊎ Creates c db db' r
unfolding create
create-cases c db db' r e =
    let (terms, t, e1) = >>=-eq-ok (require_approved_terms c.legal) _ e in
    let (u, a, e2) = >>=-eq-ok (require_acceptance c.dto terms) _ e1 in
    let (period, dates, e3) =
      >>=-eq-ok (parse_booking_period c.dto.start_date c.dto.end_date c.today) _ e2 in
    answered_case c period db db' r (find_repeated c.borrower_id c.request_id db) dates refl e3
