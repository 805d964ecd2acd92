-- ===== src/Payments/Calm/Disputes.antt =====
-- backend/src/payments/dispute.service.ts, the retry of an operation, and the deadline of a deposit.
use sosedi_app.Prelude.{
  Bool-cases, Option-cases, String, any, ap, arith, eqb, false, inl, inr, none, not, not-false,
  refl, some, sym, true, update_many, ℕ, ◌+◌, ◌==◌, ◌||◌, ◌∙◌, ◌∷◌, ◌≡◌,
}
use sosedi_app.Domain.{
  Booking, BookingDeposit, Db, DepositOperation, FinancialDispute, booking_by_id, deposit_of,
}
use sosedi_app.Domain.Failure.{
  >>=-eq-ok, booking_not_found, dispute_not_allowed, dispute_not_found, idempotency_key_missing, ok,
  ok-pair, operation_not_found, or_throw-eq-ok, other_decision, resolution_mismatch,
  resolution_not_allowed, throw_if-eq-ok, unique_violation,
}
use sosedi_app.Domain.Status.{
  BookingStatus, DepositStatus, DisputeStatus, OperationKind, booking_is, deposit_is, dispute_is,
}
use sosedi_app.Payments.Calm.{Calm, Quiet, Quiet-same, Schedules, Scheduling}
use sosedi_app.Payments.Completion.{complete_after_return, dispute_decided, dispute_window_closed}
use sosedi_app.Payments.Deadline.{auto_refund_key, process_deadline, schedule_refund, skips}
use sosedi_app.Payments.Dispute.{
  ResolveContext, create_resolution_operation, decide, decided_row, dispute_by_id, is_participant,
  may_not_dispute, new_dispute, open_dispute, resolution_leg, resolve_dispute, same_decision,
  write_decision,
}
use sosedi_app.Payments.Operations.{
  add_operation, deposit_by_id, operation_by_id, pending_operation, set_deposit,
}
use sosedi_app.Payments.Policy.{MarketplacePolicy, require_fake_safe_deal}
use sosedi_app.Payments.Retry.{retry_failed_operation, retry_operation}
use sosedi_app.Text.{is_empty, trim}

-- What opening a dispute has found and written.
pub record Opens (actor booking k : String) (now : ℕ) (db db' : Db) (f : FinancialDispute)
    : Type 0 where
  pub row : Booking
  pub deposit : BookingDeposit
  pub found : booking_by_id booking db ≡ some row
  pub party : is_participant actor row ≡ true
  pub deposit_found : deposit_of booking db ≡ some deposit
  pub allowed : may_not_dispute row deposit booking now db ≡ false
  pub written : db' ≡ record db {
    disputes = new_dispute k booking actor now ∷ db.disputes;
    deposits = set_deposit deposit.id DepositStatus.disputed db.deposits;
  }
  pub result : f ≡ new_dispute k booking actor now

pub open_dispute-Opens :
    (actor booking k : String) (now : ℕ) (db db' : Db) (f : FinancialDispute)
    → open_dispute actor booking k now db ≡ ok (db', f)
    → Opens actor booking k now db db' f
unfolding open_dispute
open_dispute-Opens actor booking k now db db' f e =
    let (b, found, e1) = or_throw-eq-ok (booking_by_id booking db) booking_not_found _ e in
    let (h2, e2) = throw_if-eq-ok (not (is_participant actor b)) booking_not_found _ e1 in
    let (d, d_found, e3) = or_throw-eq-ok (deposit_of booking db) dispute_not_allowed _ e2 in
    let (h4, e4) = throw_if-eq-ok (may_not_dispute b d booking now db) dispute_not_allowed _ e3 in
    let (_, e5) = throw_if-eq-ok (any (λ f. f.id == k) db.disputes) unique_violation _ e4 in
    record {
      row = b;
      deposit = d;
      found = found;
      party = not-false _ h2;
      deposit_found = d_found;
      allowed = h4;
      written = sym (ok-pair e5).0;
      result = sym (ok-pair e5).1;
    }

pub open_dispute-Calm :
    (actor booking k : String) (now : ℕ) (db db' : Db) (f : FinancialDispute)
    → open_dispute actor booking k now db ≡ ok (db', f)
    → Calm db db'
open_dispute-Calm actor booking k now db db' f e =
    let s = open_dispute-Opens actor booking k now db db' f e in
    record {
      rows = ap (λ x. x.bookings) s.written;
      periods = ap (λ x. x.unavailable_periods) s.written;
    }

retry_operation-Quiet :
    (k command new_id : String) (now : ℕ) (db db' : Db) (o : DepositOperation)
    → retry_operation k command new_id now db ≡ ok (db', o)
    → Quiet db db'
unfolding retry_operation add_operation
retry_operation-Quiet k command new_id now db db' o e =
    let (p, _, e1) = or_throw-eq-ok (operation_by_id k db) operation_not_found _ e in
    let (d, _, e2) = or_throw-eq-ok (deposit_by_id p.deposit_id db) operation_not_found _ e1 in
    record {
      calm = record { rows = ground arith; periods = ground arith };
      deposits = ground arith;
    }

pub retry-Quiet :
    (policy : MarketplacePolicy) (k key new_id : String) (now : ℕ) (db db' : Db)
    (o : DepositOperation)
    → retry_failed_operation policy k key new_id now db ≡ ok (db', o)
    → Quiet db db'
unfolding retry_failed_operation
retry-Quiet policy k key new_id now db db' o e =
    let (_, _, e1) = >>=-eq-ok (require_fake_safe_deal policy) _ e in
    let (_, e2) = throw_if-eq-ok (is_empty (trim key)) idempotency_key_missing _ e1 in
    retry_operation-Quiet k (trim key) new_id now db db' o e2

schedule_refund-Schedules :
    (now : ℕ) (operation_id : String) (d : BookingDeposit) (db db' : Db) (n : ℕ)
    → schedule_refund now operation_id d db ≡ ok (db', n)
    → Schedules db db'
unfolding schedule_refund
schedule_refund-Schedules now operation_id d db db' n e =
    let (operations, _, e1) =
      >>=-eq-ok
        (add_operation
          (pending_operation operation_id d.id OperationKind.refund d.amount (auto_refund_key d.id)
            none now)
          db.operations)
        _ e in
    let db1 : Db = record db {
      operations = operations;
      deposits = set_deposit d.id DepositStatus.resolving db.deposits;
    } in
    let ((db2, m), c, e2) =
      >>=-eq-ok (complete_after_return d.booking_id now dispute_window_closed db1)
        (λ x. ok (x.0, 1)) e1 in
    record {
      completes = record {
        before = db1;
        calm = record { rows = refl; periods = refl };
        booking_id = d.booking_id;
        at_time = now;
        trigger = dispute_window_closed;
        count = m;
        completed = c ∙ ap (λ x. ok (x, m)) (ok-pair e2).0;
      };
      deposit_id = d.id;
      scheduled = refl;
    }

pub process_deadline-Scheduling :
    (now : ℕ) (k operation_id : String) (db db' : Db) (n : ℕ)
    → process_deadline now k operation_id db ≡ ok (db', n)
    → Scheduling db db'
unfolding process_deadline
process_deadline-Scheduling now k operation_id db db' n e =
    elim (Option-cases (deposit_by_id k db)) [
      | inl missing ↦
          let same = sym (ok-pair (rw (process_deadline, missing) at e)).0 in
          inl (Quiet-same db db' same)
      | inr (d, found) ↦ elim (Bool-cases (skips now db d)) [
        | inl t ↦
            let same = sym (ok-pair (rw (process_deadline, found, t) at e)).0 in
            inl (Quiet-same db db' same)
        | inr t ↦ inr (
            schedule_refund-Schedules now operation_id d db db' n
              (rw (process_deadline, found, t) at e))
      ]
    ]

write_decision-Schedules :
    (c : ResolveContext) (refund release : ℕ) (f : FinancialDispute) (d : BookingDeposit)
    (db db' : Db) (g : FinancialDispute)
    → write_decision c refund release f d db ≡ ok (db', g)
    → Schedules db db'
unfolding write_decision
write_decision-Schedules c refund release f d db db' g e =
    let (with_refund, _, e1) =
      >>=-eq-ok
        (create_resolution_operation c.refund_id f.id d.id OperationKind.refund refund
          (trim c.idempotency_key) c.now db.operations)
        _ e in
    let (operations, _, e2) =
      >>=-eq-ok
        (create_resolution_operation c.release_id f.id d.id OperationKind.release_to_lender release
          (trim c.idempotency_key) c.now with_refund)
        _ e1 in
    let db1 : Db = record db {
      operations = operations;
      deposits = set_deposit d.id DepositStatus.resolving db.deposits;
      disputes =
          update_many (λ h. h.id == f.id) (decided_row c.admin_id c.resolution refund release c.now)
            db.disputes;
    } in
    let ((db2, m), done, e3) =
      >>=-eq-ok (complete_after_return f.booking_id c.now dispute_decided db1)
        (λ x. ok (x.0, decided_row c.admin_id c.resolution refund release c.now f)) e2 in
    record {
      completes = record {
        before = db1;
        calm = record { rows = refl; periods = refl };
        booking_id = f.booking_id;
        at_time = c.now;
        trigger = dispute_decided;
        count = m;
        completed = done ∙ ap (λ x. ok (x, m)) (ok-pair e3).0;
      };
      deposit_id = d.id;
      scheduled = refl;
    }

decide-Scheduling :
    (c : ResolveContext) (refund release : ℕ) (f : FinancialDispute) (b : Booking)
    (d : BookingDeposit) (db db' : Db) (g : FinancialDispute)
    → decide c refund release f b d db ≡ ok (db', g)
    → Scheduling db db'
unfolding decide
decide-Scheduling c refund release f b d db db' g e =
    let (_, e1) = throw_if-eq-ok (not (eqb (refund + release) d.amount)) resolution_mismatch _ e in
    elim (Bool-cases (dispute_is DisputeStatus.open_dispute f.status)) [
      | inl t ↦
          let (_, e2) =
            throw_if-eq-ok
              (not (booking_is BookingStatus.returned b.status)
                || not (deposit_is DepositStatus.disputed d.status))
              resolution_not_allowed (write_decision c refund release f d db) (rw t at e1) in
          inr (write_decision-Schedules c refund release f d db db' g e2)
      | inr t ↦
          let (_, e2) =
            throw_if-eq-ok
              (not (
                same_decision c.admin_id c.resolution refund release (trim c.idempotency_key) f d.id
                  db))
              other_decision (ok (db, f)) (rw t at e1) in
          let same = sym (ok-pair e2).0 in inl (Quiet-same db db' same)
    ]

pub resolve_dispute-Scheduling :
    (c : ResolveContext) (db db' : Db) (g : FinancialDispute)
    → resolve_dispute c db ≡ ok (db', g)
    → Scheduling db db'
unfolding resolve_dispute
resolve_dispute-Scheduling c db db' g e =
    let (_, _, e1) = >>=-eq-ok (require_fake_safe_deal c.policy) _ e in
    let (_, e2) = throw_if-eq-ok (is_empty (trim c.idempotency_key)) idempotency_key_missing _ e1 in
    let (refund, _, e3) = >>=-eq-ok (resolution_leg c.resolution.refund_to_borrower_minor) _ e2 in
    let (release, _, e4) = >>=-eq-ok (resolution_leg c.resolution.release_to_lender_minor) _ e3 in
    let (f, _, e5) = or_throw-eq-ok (dispute_by_id c.dispute_id db) dispute_not_found _ e4 in
    let (b, _, e6) = or_throw-eq-ok (booking_by_id f.booking_id db) dispute_not_found _ e5 in
    let (d, _, e7) =
      or_throw-eq-ok (deposit_of f.booking_id db) dispute_not_found
        (λ d. decide c refund release f b d db) e6 in
    decide-Scheduling c refund release f b d db db' g e7
