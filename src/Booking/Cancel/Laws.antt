-- ===== src/Booking/Cancel/Laws.antt =====
-- What a successful `cancelPending` has found, and what it wrote.
use sosedi_app.Prelude.{
  Bool-cases, Option, String, arith, false, inl, inr, none, not, some, subst, sym, true, ℕ, ◌&&◌,
  ◌∙◌, ◌∷◌, ◌≡◌, ◌⊎◌,
}
use sosedi_app.Booking.Cancel.{
  already_cancelled, blocks_cancel, cancel_deposit, cancel_message, cancel_now, cancel_pending,
  cancel_reason, cancel_transition, cancelled_bookings, confirmed_safe_deal, reject_extension,
  write_cancel,
}
use sosedi_app.Booking.Confirm.{cancelled_row, may_confirm}
use sosedi_app.Booking.Conflicts.{log}
use sosedi_app.Domain.{
  Booking, BookingDeposit, Db, booking_event, create_event, deposit_of, participant_booking,
}
use sosedi_app.Domain.Failure.{
  >>=-eq-ok, booking_not_found, ok, ok-pair, or_throw-eq-ok, throw_if-eq-ok,
}
use sosedi_app.Domain.Laws.{create_event-eq-ok}
use sosedi_app.Payments.Operations.{add_operation}
use sosedi_app.Payments.Policy.{MarketplacePolicy, is_fake_safe_deal}

pub record Cancels (policy : MarketplacePolicy) (actor k operation_id : String) (now : ℕ)
    (db db' : Db) (r : Booking) : Type 0 where
  pub row : Booking
  pub found : participant_booking actor k db ≡ some row
  pub open_now : (not (may_confirm now row) && not (confirmed_safe_deal row)) ≡ false
  pub in_force :
      (confirmed_safe_deal row && not (is_fake_safe_deal policy.payment_scenario)) ≡ false
  pub refundable : (confirmed_safe_deal row && blocks_cancel (deposit_of row.id db)) ≡ false
  pub after_deposit : Db
  pub deposited :
      cancel_deposit operation_id now (deposit_of row.id db) (cancelled_bookings actor row db)
      ≡ ok after_deposit
  pub written :
      db' ≡ record (log (cancel_transition actor row) (cancel_message actor row) after_deposit) {
        outbox = booking_event row.id "BOOKING_CANCELLED" ∷ after_deposit.outbox;
      }
  pub result : r ≡ cancelled_row (cancel_reason actor row) row

cancel_now-Cancels :
    (policy : MarketplacePolicy) (actor k operation_id : String) (now : ℕ) (b : Booking)
    (db db' : Db) (r : Booking)
    → participant_booking actor k db ≡ some b
    → cancel_now policy actor operation_id now b db ≡ ok (db', r)
    → Cancels policy actor k operation_id now db db' r
unfolding cancel_now write_cancel
cancel_now-Cancels policy actor k operation_id now b db db' r found e =
    let (h1, e1) = throw_if-eq-ok _ _ _ e in
    let (h2, e2) = throw_if-eq-ok _ _ _ e1 in
    let (h3, e3) = throw_if-eq-ok _ _ _ e2 in
    let (db1, d, e4) =
      >>=-eq-ok
        (cancel_deposit operation_id now (deposit_of b.id db) (cancelled_bookings actor b db)) _
        e3 in
    let (db2, w, e5) =
      >>=-eq-ok
        (create_event (booking_event b.id "BOOKING_CANCELLED")
          (log (cancel_transition actor b) (cancel_message actor b) db1))
        _ e4 in
    let (new, same) =
      create_event-eq-ok (booking_event b.id "BOOKING_CANCELLED")
        (log (cancel_transition actor b) (cancel_message actor b) db1) db2 w in
    record {
      row = b;
      found = found;
      open_now = h2;
      in_force = h1;
      refundable = h3;
      after_deposit = db1;
      deposited = d;
      written = sym (ok-pair e5).0 ∙ same;
      result = sym (ok-pair e5).1;
    }

-- The answer to a repetition.
pub record AlreadyCancelled (actor k : String) (db db' : Db) (r : Booking) : Type 0 where
  pub found : participant_booking actor k db ≡ some r
  pub was : already_cancelled actor r ≡ true
  pub unchanged : db' ≡ db

pub cancel-cases :
    (policy : MarketplacePolicy) (actor k operation_id : String) (now : ℕ) (db db' : Db)
    (r : Booking)
    → cancel_pending policy actor k operation_id now db ≡ ok (db', r)
    → AlreadyCancelled actor k db db' r ⊎ Cancels policy actor k operation_id now db db' r
unfolding cancel_pending
cancel-cases policy actor k operation_id now db db' r e =
    let (b, found, e1) = or_throw-eq-ok _ _ _ e in
    elim (Bool-cases (already_cancelled actor b)) [
      | inl t ↦
          let (same_db, same) = ok-pair (rw t at e1) in
          inl (record {
            found = subst (λ x. participant_booking actor k db ≡ some x) same found;
            was = subst (λ x. already_cancelled actor x ≡ true) same t;
            unchanged = sym same_db;
          })
      | inr t ↦
          inr (cancel_now-Cancels policy actor k operation_id now b db db' r found (rw t at e1))
    ]

-- The deposit's part changes the deposits and their operations only.
pub cancel_deposit_same :
    (operation_id : String) (now : ℕ) (o : Option BookingDeposit) (db db' : Db)
    → cancel_deposit operation_id now o db ≡ ok db'
    → (db'.bookings ≡ db.bookings)
      × (db'.unavailable_periods ≡ db.unavailable_periods)
      × (db'.disputes ≡ db.disputes)
      × (db'.outbox ≡ db.outbox)
unfolding cancel_deposit add_operation
cancel_deposit_same operation_id now none db db' e = ground arith
cancel_deposit_same operation_id now (some d) db db' e = ground arith

-- An extension is always refused.
pub reject_extension_fails :
    (actor k : String) (db : Db) {x : Db × Booking} → reject_extension actor k db ≡ ok x → ⊥
unfolding reject_extension
reject_extension_fails actor k db e =
    let (b, _, e1) = or_throw-eq-ok (participant_booking actor k db) booking_not_found _ e in cc e1
