-- ===== src/Payments/Calm/Processing.antt =====
-- backend/src/payments/deposit-operation.processor.ts and the checkout.
use sosedi_app.Prelude.{
  Bool, Bool-cases, Option, Option-cases, String, ap, arith, false, find_first, if◌then◌else◌, inl,
  inr, ltb, none, not, refl, some, subst, true, ℕ, ◌+◌, ◌||◌, ◌∙◌, ◌≡◌,
}
use sosedi_app.Domain.{BookingDeposit, Db, DepositOperation}
use sosedi_app.Domain.Failure.{
  >>=-eq-ok, ok, ok-injective, operation_exceeds_deposit, throw_if-eq-ok,
}
use sosedi_app.Domain.Status.{DepositStatus, deposit_is}
use sosedi_app.Payments.Calm.{Aftermath, Calm, Calm-refl, Quiet}
use sosedi_app.Payments.Completion.{complete_after_return, deposit_settled}
use sosedi_app.Payments.Operations.{deposit_by_id}
use sosedi_app.Payments.Processor.{
  apply_outcome, claim, failed_row, finish, is_leased, is_settlement, next_refunded, next_released,
  postponed_row, set_operation, settle,
}
use sosedi_app.Payments.Provider.{
  ProviderResult, provider_declined, provider_succeeded, provider_timeout,
}

pub claim-Quiet :
    (k : String) (now : ℕ) (db db' : Db) (o : DepositOperation)
    → claim k now db ≡ some (db', o)
    → Quiet db db'
unfolding claim
claim-Quiet k now db db' o e = record {
  calm = record { rows = ground arith; periods = ground arith };
  deposits = ground arith;
}

finish-Aftermath :
    (booking : String) (now : ℕ) (done : Bool) (db db1 db' : Db)
    → Calm db db1
    → finish booking now done db1 ≡ ok db'
    → Aftermath db db'
unfolding finish
finish-Aftermath booking now false db db1 db' calm e = inl (subst (Calm db) (ok-injective e) calm)
finish-Aftermath booking now true db db1 db' calm e =
    let ((db2, n), c, e1) =
      >>=-eq-ok (complete_after_return booking now deposit_settled db1) (λ x. ok x.0) e in
    inr (record {
      before = db1;
      calm = calm;
      booking_id = booking;
      at_time = now;
      trigger = deposit_settled;
      count = n;
      completed = c ∙ ap (λ d. ok (d, n)) (ok-injective e1);
    })

settle-Aftermath :
    (k booking : String) (lease now : ℕ) (provider_id : String) (o : DepositOperation)
    (d : BookingDeposit) (db db' : Db)
    → settle k booking lease now provider_id o d db ≡ ok db'
    → Aftermath db db'
unfolding settle
settle-Aftermath k booking lease now provider_id o d db db' e =
    let (_, e1) =
      throw_if-eq-ok
        (not (is_settlement o.kind) || ltb d.amount (next_refunded o d + next_released o d))
        operation_exceeds_deposit _ e in
    finish-Aftermath booking now _ db _ db' (record { rows = refl; periods = refl }) e1

pub apply_outcome-Aftermath :
    (k booking : String) (attempts lease : ℕ) (outcome : ProviderResult) (now : ℕ) (db db' : Db)
    → apply_outcome k booking attempts lease outcome now db ≡ ok db'
    → Aftermath db db'
unfolding apply_outcome
apply_outcome-Aftermath k booking attempts lease outcome now db db' e =
    elim (Option-cases (find_first (is_leased k lease) db.operations)) [
      | inl missing ↦ inl (unchanged (rw (apply_outcome, missing) at e))
      | inr (o, found) ↦ leased o outcome (rw (apply_outcome, found) at e)
    ]
  where
    unchanged : {db1 : Db} → ok db1 ≡ ok db' → Calm db1 db'
    unchanged {db1} h = subst (Calm db1) (ok-injective h) (Calm-refl db1)

    changed :
        (f : DepositOperation → DepositOperation)
        → ok (set_operation k lease f db) ≡ ok db'
        → Calm db db'
    changed f h = subst (Calm db) (ok-injective h) (record { rows = refl; periods = refl })

    settled :
        (o : DepositOperation) (d : BookingDeposit) (provider_id : String)
        → (if deposit_is DepositStatus.resolving d.status
            then settle k booking lease now provider_id o d db
            else ok db)
          ≡ ok db'
        → Aftermath db db'
    settled o d provider_id h = elim (Bool-cases (deposit_is DepositStatus.resolving d.status)) [
      | inl t ↦ settle-Aftermath k booking lease now provider_id o d db db' (rw t at h)
      | inr t ↦ inl (unchanged (rw t at h))
    ]

    found_deposit :
        (o : DepositOperation) (provider_id : String) (r : Option BookingDeposit)
        → elim r [
          | none ↦ ok db
          | some d ↦
              if deposit_is DepositStatus.resolving d.status
              then settle k booking lease now provider_id o d db
              else ok db
        ]
          ≡ ok db'
        → Aftermath db db'
    found_deposit o provider_id none h = inl (unchanged h)
    found_deposit o provider_id (some d) h = settled o d provider_id h

    leased :
        (o : DepositOperation) (outcome : ProviderResult)
        → elim outcome [
          | provider_timeout ↦ ok (set_operation k lease (postponed_row now attempts) db)
          | provider_declined code ↦ ok (set_operation k lease (failed_row now code) db)
          | provider_succeeded provider_id ↦ elim (deposit_by_id o.deposit_id db) [
            | none ↦ ok db
            | some d ↦
                if deposit_is DepositStatus.resolving d.status
                then settle k booking lease now provider_id o d db
                else ok db
          ]
        ]
          ≡ ok db'
        → Aftermath db db'
    leased o provider_timeout h = inl (changed (postponed_row now attempts) h)
    leased o (provider_declined code) h = inl (changed (failed_row now code) h)
    leased o (provider_succeeded provider_id) h =
        found_deposit o provider_id (deposit_by_id o.deposit_id db) h
