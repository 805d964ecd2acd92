-- ===== src/Payments/Deadline/Once.antt =====
-- A deposit that `processDue` of backend/src/payments/deposit-deadline.service.ts meets again.
use sosedi_app.Prelude.{
  Bool-cases, Option-cases, String, ap, arith, eq_refl, find_first-update_many, inl, inr, none,
  refl, some, sym, update_row, ℕ, ◌==◌, ◌∙◌, ◌≡◌,
}
use sosedi_app.Domain.{BookingDeposit, Db}
use sosedi_app.Domain.Failure.{>>=-eq-ok, Result, ok, ok-pair}
use sosedi_app.Domain.Status.{DepositStatus, OperationKind}
use sosedi_app.Payments.Balance.Settling.{complete-deposits}
use sosedi_app.Payments.Completion.{complete_after_return, dispute_window_closed}
use sosedi_app.Payments.Deadline.{auto_refund_key, process_deadline, schedule_refund, skips}
use sosedi_app.Payments.Operations.{add_operation, deposit_by_id, pending_operation, set_deposit}

schedule_refund-deposits :
    (now : ℕ) (operation_id : String) (d : BookingDeposit) (db db' : Db) (n : ℕ)
    → schedule_refund now operation_id d db ≡ ok (db', n)
    → db'.deposits ≡ set_deposit d.id DepositStatus.resolving db.deposits
unfolding schedule_refund
schedule_refund-deposits now operation_id d db db' n e =
    let (operations, _, e1) =
      >>=-eq-ok
        (add_operation
          (pending_operation operation_id d.id OperationKind.refund d.amount (auto_refund_key d.id)
            none now)
          db.operations)
        _ e in
    let db1 : Db = record db {
      operations = operations;
      deposits = set_deposit d.id DepositStatus.resolving db.deposits;
    } in
    let ((db2, m), c, e2) =
      >>=-eq-ok (complete_after_return d.booking_id now dispute_window_closed db1)
        (λ x. ok (x.0, 1)) e1 in
    ap (λ x. x.deposits) (sym (ok-pair e2).0)
    ∙ complete-deposits d.booking_id now dispute_window_closed db1 db2 m c

abbrev resolving_row : BookingDeposit → BookingDeposit
resolving_row d = record d { status = DepositStatus.resolving }

found_resolving :
    (k : String) (d : BookingDeposit) (db db' : Db)
    → deposit_by_id k db ≡ some d
    → db'.deposits ≡ set_deposit d.id DepositStatus.resolving db.deposits
    → deposit_by_id k db' ≡ some (resolving_row d)
found_resolving k d db db' found e =
    rw
      (
        e,
        find_first-update_many (λ x. x.id == k) (λ x. x.id == d.id) resolving_row db.deposits
            same_test,
        found,
        eq_refl d.id,
      )
      refl
  where
    same_test :
        (x : BookingDeposit) → (update_row (λ x. x.id == d.id) resolving_row x).id == k ≡ x.id == k
    same_test x = elim (Bool-cases (x.id == d.id)) [ inl t ↦ rw t | inr t ↦ rw t ]

not_counted : {db db' : Db} → ◌≡◌ {A = Result (Db × ℕ)} (ok (db, 0)) (ok (db', 1)) → ⊥
not_counted e = zero_not_one (ok-pair e).1
  where
    zero_not_one : ◌≡◌ {A = ℕ} 0 1 → ⊥
    zero_not_one h = omega arith

-- A deposit whose refund the deadline has scheduled is met again in vain: at any later time nothing
-- more is scheduled for it, and nothing is written.
pub process_deadline_once :
    (now later : ℕ) (k operation_id operation_id' : String) (db db' : Db)
    → process_deadline now k operation_id db ≡ ok (db', 1)
    → process_deadline later k operation_id' db' ≡ ok (db', 0)
unfolding process_deadline
process_deadline_once now later k operation_id operation_id' db db' e =
    elim (Option-cases (deposit_by_id k db)) [
      | inl missing ↦ absurd (not_counted (rw (process_deadline, missing) at e))
      | inr (d, found) ↦ elim (Bool-cases (skips now db d)) [
        | inl t ↦ absurd (not_counted (rw (process_deadline, found, t) at e))
        | inr t ↦
            let written =
              schedule_refund-deposits now operation_id d db db' 1
                (rw (process_deadline, found, t) at e) in
            rw (process_deadline, found_resolving k d db db' found written) refl
      ]
    ]
