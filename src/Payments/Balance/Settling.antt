-- ===== src/Payments/Balance/Settling.antt =====
-- The deposits under the outcomes of operations.
use sosedi_app.Prelude.{
  All-trivial, All-update_with, Bool, Bool-cases, Option-cases, Pairwise-update_many, String, ap,
  arith, eq_iff, eqb, false, find_first, find_first_holds, find_first_only, if◌then◌else◌, inl, inr,
  ltb, none, not, refl, some, subst, sym, true, update_many, update_row, ℕ, ◌&&◌, ◌+◌, ◌==◌, ◌||◌,
  ◌∙◌, ◌≡◌, ◌≢◌, ◌≤◌,
}
use sosedi_app.Domain.{BookingDeposit, Db, DepositOperation}
use sosedi_app.Domain.Failure.{
  >>=-eq-ok, ok, ok-injective, operation_exceeds_deposit, throw_if-eq-ok,
}
use sosedi_app.Domain.Status.{DepositStatus, deposit_is}
use sosedi_app.Payments.Balance.{IsBalanced, IsSound, same-IsBalanced}
use sosedi_app.Payments.Completion.{CompletionTrigger, complete_after_return, deposit_settled}
use sosedi_app.Payments.Completion.Laws.{complete-Outcome}
use sosedi_app.Payments.Operations.{deposit_by_id}
use sosedi_app.Payments.Processor.{
  apply_outcome, failed_row, finish, is_leased, is_settlement, next_refunded, next_released,
  postponed_row, set_operation, settle, settled_row,
}
use sosedi_app.Payments.Provider.{
  ProviderResult, provider_declined, provider_succeeded, provider_timeout,
}

-- The deposit after an operation that was let through.
IsSound-settled :
    (o : DepositOperation) (legs : Bool) (d : BookingDeposit)
    → ltb d.amount (next_refunded o d + next_released o d) ≡ false
    → IsSound (settled_row o (eqb (next_refunded o d + next_released o d) d.amount && legs) d)
IsSound-settled o legs d h = record {
  bounded = not_above (next_refunded o d + next_released o d) d.amount h;
  in_full = λ r.
      whole (eqb (next_refunded o d + next_released o d) d.amount) legs
        (equal (next_refunded o d + next_released o d) d.amount) r;
}
  where
    not_above : (n m : ℕ) → ltb m n ≡ false → n ≤ m
    not_above n m h = ground arith

    equal : (n m : ℕ) → eqb n m ≡ true → n ≡ m
    equal n m h = ground arith

    whole :
        {P : Type 0} (b c : Bool)
        → (b ≡ true → P)
        → (if b && c then DepositStatus.resolved else DepositStatus.resolving)
          ≡ DepositStatus.resolved
        → P
    whole true c k r = k refl
    whole false c k r = absurd (cc r)

settled_deposits-IsBalanced :
    (o : DepositOperation) (legs : Bool) (d : BookingDeposit) (db db' : Db)
    → deposit_by_id o.deposit_id db ≡ some d
    → ltb d.amount (next_refunded o d + next_released o d) ≡ false
    → db'.deposits
      ≡ update_many
          (λ e. e.id == o.deposit_id)
          (settled_row o (eqb (next_refunded o d + next_released o d) d.amount && legs))
          db.deposits
    → IsBalanced db
    → IsBalanced db'
settled_deposits-IsBalanced o legs d db db' found h e v = record {
  apart = rw e (
      Pairwise-update_many (λ x y. x.id ≢ y.id) (λ x. Unit {0}) (λ x. x.id == o.deposit_id)
        (settled_row o done) db.deposits
        (λ x y _ _ ne same. ne (sym (kept_id x) ∙ same ∙ kept_id y)) (All-trivial db.deposits)
        v.apart);
  sound = rw e (
      All-update_with (λ x. x.id ≡ d.id → x ≡ d) IsSound IsSound (λ x. x.id == o.deposit_id)
        (settled_row o done) db.deposits settled_sound
        (find_first_only (λ x. x.id) (λ x. x.id == o.deposit_id) db.deposits {r = d} v.apart found)
        v.sound);
}
  where
    done : Bool
    done = eqb (next_refunded o d + next_released o d) d.amount && legs

    kept_id :
        (x : BookingDeposit)
        → (update_row (λ x. x.id == o.deposit_id) (settled_row o done) x).id ≡ x.id
    kept_id x = elim (Bool-cases (x.id == o.deposit_id)) [ inl t ↦ rw t refl | inr t ↦ rw t refl ]

    settled_sound :
        (x : BookingDeposit)
        → (x.id ≡ d.id → x ≡ d)
        → IsSound x
        → IsSound (update_row (λ x. x.id == o.deposit_id) (settled_row o done) x)
    settled_sound x only s = elim (Bool-cases (x.id == o.deposit_id)) [
      | inl t ↦
          let here =
            (eq_iff d.id o.deposit_id).0
              (find_first_holds (λ x. x.id == o.deposit_id) db.deposits {x = d} found) in
          let same = only ((eq_iff x.id o.deposit_id).0 t ∙ sym here) in
          rw t (subst (λ y. IsSound (settled_row o done y)) (sym same) (IsSound-settled o legs d h))
      | inr t ↦ rw t s
    ]

-- A completion leaves the deposits.
pub complete-deposits :
    (k : String) (now : ℕ) (trigger : CompletionTrigger) (db db' : Db) (n : ℕ)
    → complete_after_return k now trigger db ≡ ok (db', n)
    → db'.deposits ≡ db.deposits
complete-deposits k now trigger db db' n e = elim (complete-Outcome k now trigger db db' n e) [
  | inl s ↦ ap (λ d. d.deposits) s.1
  | inr s ↦ ap (λ d. d.deposits) s.1.written
]

finish-deposits :
    (booking : String) (now : ℕ) (done : Bool) (db db' : Db)
    → finish booking now done db ≡ ok db'
    → db'.deposits ≡ db.deposits
unfolding finish
finish-deposits booking now false db db' e = ap (λ d. d.deposits) (sym (ok-injective e))
finish-deposits booking now true db db' e =
    let ((db1, n), c, e1) =
      >>=-eq-ok (complete_after_return booking now deposit_settled db) (λ x. ok x.0) e in
    sym (ap (λ d. d.deposits) (ok-injective e1))
    ∙ complete-deposits booking now deposit_settled db db1 n c

settle-IsBalanced :
    (k booking : String) (lease now : ℕ) (provider_id : String) (o : DepositOperation)
    (d : BookingDeposit) (db db' : Db)
    → deposit_by_id o.deposit_id db ≡ some d
    → settle k booking lease now provider_id o d db ≡ ok db'
    → IsBalanced db
    → IsBalanced db'
unfolding settle
settle-IsBalanced k booking lease now provider_id o d db db' found e v =
    let (checked, e1) =
      throw_if-eq-ok
        (not (is_settlement o.kind) || ltb d.amount (next_refunded o d + next_released o d))
        operation_exceeds_deposit _ e in
    settled_deposits-IsBalanced o _ d db db' found (second (not (is_settlement o.kind)) _ checked)
      (finish-deposits booking now _ _ db' e1) v
  where
    second : (b c : Bool) → (b || c) ≡ false → c ≡ false
    second b c h = ground arith

pub apply_outcome-IsBalanced :
    (k booking : String) (attempts lease : ℕ) (outcome : ProviderResult) (now : ℕ) (db db' : Db)
    → apply_outcome k booking attempts lease outcome now db ≡ ok db'
    → IsBalanced db
    → IsBalanced db'
unfolding apply_outcome
apply_outcome-IsBalanced k booking attempts lease outcome now db db' e v =
    elim (Option-cases (find_first (is_leased k lease) db.operations)) [
      | inl missing ↦ unchanged (rw (apply_outcome, missing) at e)
      | inr (o, found) ↦ leased o outcome (rw (apply_outcome, found) at e)
    ]
  where
    unchanged : ok db ≡ ok db' → IsBalanced db'
    unchanged h = subst IsBalanced (ok-injective h) v

    changed :
        (f : DepositOperation → DepositOperation)
        → ok (set_operation k lease f db) ≡ ok db'
        → IsBalanced db'
    changed f h = same-IsBalanced db db' (ap (λ d. d.deposits) (sym (ok-injective h))) v

    settled :
        (o : DepositOperation) (d : BookingDeposit) (provider_id : String)
        → deposit_by_id o.deposit_id db ≡ some d
        → (if deposit_is DepositStatus.resolving d.status
            then settle k booking lease now provider_id o d db
            else ok db)
          ≡ ok db'
        → IsBalanced db'
    settled o d provider_id found h =
        elim (Bool-cases (deposit_is DepositStatus.resolving d.status)) [
          | inl t ↦ settle-IsBalanced k booking lease now provider_id o d db db' found (rw t at h) v
          | inr t ↦ unchanged (rw t at h)
        ]

    leased :
        (o : DepositOperation) (outcome : ProviderResult)
        → elim outcome [
          | provider_timeout ↦ ok (set_operation k lease (postponed_row now attempts) db)
          | provider_declined code ↦ ok (set_operation k lease (failed_row now code) db)
          | provider_succeeded provider_id ↦ elim (deposit_by_id o.deposit_id db) [
            | none ↦ ok db
            | some d ↦
                if deposit_is DepositStatus.resolving d.status
                then settle k booking lease now provider_id o d db
                else ok db
          ]
        ]
          ≡ ok db'
        → IsBalanced db'
    leased o provider_timeout h = changed (postponed_row now attempts) h
    leased o (provider_declined code) h = changed (failed_row now code) h
    leased o (provider_succeeded provider_id) h =
        elim (Option-cases (deposit_by_id o.deposit_id db)) [
          | inl missing ↦ unchanged (rw missing at h)
          | inr (d, found) ↦ settled o d provider_id found (rw found at h)
        ]
