-- ===== src/Payments/Processor/Once.antt =====
-- `applyOutcome` of backend/src/payments/deposit-operation.processor.ts under a lease that was used.
use sosedi_app.Prelude.{
  All-update_every, Bool, Bool-cases, Option-cases, String, ap, arith, false, find_first,
  find_first_absent, if◌then◌else◌, inl, inr, ltb, none, not, refl, some, subst, sym, true,
  update_row, ℕ, ◌+◌, ◌||◌, ◌∙◌, ◌≡◌,
}
use sosedi_app.Domain.{BookingDeposit, Db, DepositOperation}
use sosedi_app.Domain.Failure.{
  >>=-eq-ok, ok, ok-injective, operation_exceeds_deposit, throw_if-eq-ok,
}
use sosedi_app.Domain.Status.{DepositStatus, deposit_is}
use sosedi_app.Payments.Completion.{CompletionTrigger, complete_after_return, deposit_settled}
use sosedi_app.Payments.Completion.Laws.{complete-Outcome}
use sosedi_app.Payments.Operations.{deposit_by_id}
use sosedi_app.Payments.Processor.{
  apply_outcome, failed_row, finish, is_leased, is_settlement, next_refunded, next_released,
  postponed_row, set_operation, settle, succeeded_row,
}
use sosedi_app.Payments.Provider.{
  ProviderResult, provider_declined, provider_succeeded, provider_timeout,
}

NoLease : (k : String) (lease : ℕ) (db : Db) → Type 0
NoLease k lease db = find_first (is_leased k lease) db.operations ≡ none

-- The operation's row is no longer under the lease.
set_operation-NoLease :
    (k : String) (lease : ℕ) (f : DepositOperation → DepositOperation) (db : Db)
    → ((x : DepositOperation) → (f x).processing_until ≡ none)
    → NoLease k lease (set_operation k lease f db)
unfolding NoLease
set_operation-NoLease k lease f db ended =
    find_first_absent (is_leased k lease) _
      (All-update_every (λ x. is_leased k lease x ≡ false) (is_leased k lease) f db.operations row)
  where
    unleased : (x : DepositOperation) → x.processing_until ≡ none → is_leased k lease x ≡ false
    unleased x e = ground arith

    row : (x : DepositOperation) → is_leased k lease (update_row (is_leased k lease) f x) ≡ false
    row x = elim (Bool-cases (is_leased k lease x)) [
      | inl t ↦ rw t (unleased (f x) (ended x))
      | inr t ↦ rw t t
    ]

complete-operations :
    (k : String) (now : ℕ) (trigger : CompletionTrigger) (db db' : Db) (n : ℕ)
    → complete_after_return k now trigger db ≡ ok (db', n)
    → db'.operations ≡ db.operations
complete-operations k now trigger db db' n e = elim (complete-Outcome k now trigger db db' n e) [
  | inl s ↦ ap (λ d. d.operations) s.1
  | inr s ↦ ap (λ d. d.operations) s.1.written
]

finish-operations :
    (booking : String) (now : ℕ) (done : Bool) (db db' : Db)
    → finish booking now done db ≡ ok db'
    → db'.operations ≡ db.operations
unfolding finish
finish-operations booking now false db db' e = ap (λ d. d.operations) (sym (ok-injective e))
finish-operations booking now true db db' e =
    let ((db1, n), c, e1) =
      >>=-eq-ok (complete_after_return booking now deposit_settled db) (λ x. ok x.0) e in
    sym (ap (λ d. d.operations) (ok-injective e1))
    ∙ complete-operations booking now deposit_settled db db1 n c

settle-NoLease :
    (k booking : String) (lease now : ℕ) (provider_id : String) (o : DepositOperation)
    (d : BookingDeposit) (db db' : Db)
    → settle k booking lease now provider_id o d db ≡ ok db'
    → NoLease k lease db'
unfolding settle NoLease
settle-NoLease k booking lease now provider_id o d db db' e =
    let (_, e1) =
      throw_if-eq-ok
        (not (is_settlement o.kind) || ltb d.amount (next_refunded o d + next_released o d))
        operation_exceeds_deposit _ e in
    ap (find_first (is_leased k lease)) (finish-operations booking now _ _ db' e1)
    ∙ set_operation-NoLease k lease (succeeded_row now provider_id) db (λ x. refl)

-- An outcome that was applied does nothing when it is applied again under the same lease, at any
-- later time: a repeated answer pays nothing out twice.
pub apply_outcome_once :
    (k booking : String) (attempts lease : ℕ) (outcome : ProviderResult) (now later : ℕ)
    (db db' : Db)
    → apply_outcome k booking attempts lease outcome now db ≡ ok db'
    → apply_outcome k booking attempts lease outcome later db' ≡ ok db'
unfolding apply_outcome NoLease
apply_outcome_once k booking attempts lease outcome now later db db' e =
    elim (Option-cases (find_first (is_leased k lease) db.operations)) [
      | inl missing ↦
          subst (λ d. apply_outcome k booking attempts lease outcome later d ≡ ok d)
            (ok-injective (rw (apply_outcome, missing) at e)) (rw (apply_outcome, missing) refl)
      | inr (o, found) ↦ leased o found outcome (rw (apply_outcome, found) at e)
    ]
  where
    nothing :
        (outcome : ProviderResult)
        → NoLease k lease db'
        → apply_outcome k booking attempts lease outcome later db' ≡ ok db'
    nothing outcome h = rw (apply_outcome, h) refl

    ended :
        (outcome : ProviderResult) (f : DepositOperation → DepositOperation)
        → ((x : DepositOperation) → (f x).processing_until ≡ none)
        → ok (set_operation k lease f db) ≡ ok db'
        → apply_outcome k booking attempts lease outcome later db' ≡ ok db'
    ended outcome f none_left h =
        nothing outcome
          (subst (NoLease k lease) (ok-injective h) (set_operation-NoLease k lease f db none_left))

    settled :
        (o : DepositOperation) (d : BookingDeposit) (provider_id : String)
        → find_first (is_leased k lease) db.operations ≡ some o
        → deposit_by_id o.deposit_id db ≡ some d
        → (if deposit_is DepositStatus.resolving d.status
            then settle k booking lease now provider_id o d db
            else ok db)
          ≡ ok db'
        → apply_outcome k booking attempts lease (provider_succeeded provider_id) later db' ≡ ok db'
    settled o d provider_id here found h =
        elim (Bool-cases (deposit_is DepositStatus.resolving d.status)) [
          | inl t ↦
              nothing (provider_succeeded provider_id)
                (settle-NoLease k booking lease now provider_id o d db db' (rw t at h))
          | inr t ↦
              subst
                (λ x.
                  apply_outcome k booking attempts lease (provider_succeeded provider_id) later x
                  ≡ ok x)
                (ok-injective (rw t at h)) (rw (apply_outcome, here, found, t) refl)
        ]

    leased :
        (o : DepositOperation)
        → find_first (is_leased k lease) db.operations ≡ some o
        → (outcome : ProviderResult)
        → elim outcome [
          | provider_timeout ↦ ok (set_operation k lease (postponed_row now attempts) db)
          | provider_declined code ↦ ok (set_operation k lease (failed_row now code) db)
          | provider_succeeded provider_id ↦ elim (deposit_by_id o.deposit_id db) [
            | none ↦ ok db
            | some d ↦
                if deposit_is DepositStatus.resolving d.status
                then settle k booking lease now provider_id o d db
                else ok db
          ]
        ]
          ≡ ok db'
        → apply_outcome k booking attempts lease outcome later db' ≡ ok db'
    leased o here provider_timeout h =
        ended provider_timeout (postponed_row now attempts) (λ x. refl) h
    leased o here (provider_declined code) h =
        ended (provider_declined code) (failed_row now code) (λ x. refl) h
    leased o here (provider_succeeded provider_id) h =
        elim (Option-cases (deposit_by_id o.deposit_id db)) [
          | inl missing ↦
              subst
                (λ x.
                  apply_outcome k booking attempts lease (provider_succeeded provider_id) later x
                  ≡ ok x)
                (ok-injective (rw missing at h)) (rw (apply_outcome, here, missing) refl)
          | inr (d, found) ↦ settled o d provider_id here found (rw found at h)
        ]
