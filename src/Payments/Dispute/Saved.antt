-- ===== src/Payments/Dispute/Saved.antt =====
-- What the first decision of `resolveDispute` in backend/src/payments/dispute.service.ts leaves in the
-- tables.
use sosedi_app.Prelude.{
  Bool, Bool-cases, List, String, any, any_none, ap, arith, eq_iff, eq_refl, eqb, false, find_first,
  find_first-All, find_first-update_many, find_first_holds, inl, inr, none, refl, some, sym, true,
  update_many, ℕ, ◌==◌, ◌||◌, ◌∙◌, ◌∷◌, ◌≡◌, ◌⊎◌,
}
use sosedi_app.Domain.{BookingDeposit, Db, DepositOperation, FinancialDispute, deposit_of}
use sosedi_app.Domain.Failure.{>>=-eq-ok, ok, ok-injective, ok-pair}
use sosedi_app.Domain.Status.{DepositStatus, OperationKind, kind_is}
use sosedi_app.Payments.Completion.{CompletionTrigger, complete_after_return, dispute_decided}
use sosedi_app.Payments.Completion.Laws.{complete-Outcome}
use sosedi_app.Payments.Dispute.{
  ResolveContext, create_resolution_operation, decided_row, dispute_by_id, has_operation,
  resolution_key, write_decision,
}
use sosedi_app.Payments.Operations.{add_operation, pending_operation, set_deposit}
use sosedi_app.Text.{trim}

-- Where an operation is needed, it is found under its key.
abbrev Made : String → String → OperationKind → ℕ → String → List DepositOperation → Type 0
Made dispute deposit kind amount command operations =
    (eqb amount 0 ≡ true)
    ⊎ ((o : DepositOperation) × (find_first
            (λ p. p.idempotency_key == resolution_key dispute command kind) operations
          ≡ some o)
        × (o.deposit_id ≡ deposit)
        × (o.kind ≡ kind)
        × (o.amount ≡ amount))

kind_same : (kind : OperationKind) → kind_is kind kind ≡ true
kind_same kind = ground arith

has-Made :
    (dispute deposit : String) (kind : OperationKind) (amount : ℕ) (command : String) (db : Db)
    → Made dispute deposit kind amount command db.operations
    → has_operation dispute deposit kind amount command db ≡ true
has-Made dispute deposit kind amount command db (inl none_needed) = rw none_needed refl
has-Made dispute deposit kind amount command db (inr (o, found, same_deposit, same_kind, same)) =
    rw (found, same_deposit, same_kind, same, eq_refl deposit, kind_same kind) (ground arith)

-- What `createResolutionOperation` adds.
create_resolution-cases :
    (new_id dispute deposit : String) (kind : OperationKind) (amount : ℕ) (command : String)
    (now : ℕ) (operations operations' : List DepositOperation)
    → create_resolution_operation new_id dispute deposit kind amount command now operations
      ≡ ok operations'
    → ((eqb amount 0 ≡ true) × (operations' ≡ operations))
      ⊎ ((any
              (λ p. p.id == new_id || p.idempotency_key == resolution_key dispute command kind)
              operations
            ≡ false)
          × (operations'
              ≡ pending_operation new_id deposit kind amount
                  (resolution_key dispute command kind)
                  none
                  now
                ∷ operations))
unfolding create_resolution_operation add_operation
create_resolution-cases new_id dispute deposit kind amount command now operations operations' e =
    elim (Bool-cases (eqb amount 0)) [
      | inl t ↦ inl (t, sym (ok-injective (rw (create_resolution_operation, t) at e)))
      | inr t ↦
          elim (Bool-cases (
            any (λ p. p.id == new_id || p.idempotency_key == resolution_key dispute command kind)
              operations)) [
                | inl taken ↦
                    absurd (cc (rw (create_resolution_operation, t, add_operation, taken) at e))
                | inr fresh ↦ inr (
                  fresh,
                  sym (
                      ok-injective
                        (rw (create_resolution_operation, t, add_operation, fresh) at e)),
                )
              ]
    ]

create_resolution-Made :
    (new_id dispute deposit : String) (kind : OperationKind) (amount : ℕ) (command : String)
    (now : ℕ) (operations operations' : List DepositOperation)
    → create_resolution_operation new_id dispute deposit kind amount command now operations
      ≡ ok operations'
    → Made dispute deposit kind amount command operations'
create_resolution-Made new_id dispute deposit kind amount command now operations operations' e =
    elim (create_resolution-cases new_id dispute deposit kind amount command now operations
      operations' e) [
        | inl s ↦ inl s.0
        | inr s ↦ inr (
          pending_operation new_id deposit kind amount (resolution_key dispute command kind) none
              now,
          rw (s.1, eq_refl (resolution_key dispute command kind)) refl,
          refl,
          refl,
          refl,
        )
      ]

-- The next operation has another key.
create_resolution_keeps :
    (new_id dispute deposit : String) (kind : OperationKind) (amount : ℕ) (command : String)
    (now : ℕ) (operations operations' : List DepositOperation) (other : OperationKind)
    (other_amount : ℕ)
    → create_resolution_operation new_id dispute deposit kind amount command now operations
      ≡ ok operations'
    → Made dispute deposit other other_amount command operations
    → Made dispute deposit other other_amount command operations'
create_resolution_keeps new_id dispute deposit kind amount command now operations operations' other
      other_amount e (inl none_needed) =
    inl none_needed
create_resolution_keeps new_id dispute deposit kind amount command now operations operations' other
      other_amount e (inr (o, found, same_deposit, same_kind, same)) =
    elim (create_resolution-cases new_id dispute deposit kind amount command now operations
      operations' e) [
        | inl s ↦ inr (o, rw s.1 found, same_deposit, same_kind, same)
        | inr s ↦
            let apart =
              find_first-All
                (λ p.
                  (p.id == new_id || p.idempotency_key == resolution_key dispute command kind)
                  ≡ false)
                (λ p. p.idempotency_key == resolution_key dispute command other) operations {x = o}
                (any_none _ operations s.0) found in
            let here =
              find_first_holds (λ p. p.idempotency_key == resolution_key dispute command other)
                operations {x = o} found in
            inr (
              o,
              rw (s.1, differs _ _ _ (o.id == new_id) apart here) found,
              same_deposit,
              same_kind,
              same,
            )
      ]
  where
    differs : (k j i : String) (q : Bool) → (q || i == k) ≡ false → i == j ≡ true → k == j ≡ false
    differs k j i q h g = ground (arith, eq_iff i j, eq_iff i k, eq_iff k j)

-- The tables after the first decision: the dispute with the decision, the deposit RESOLVING, and an
-- operation for each leg that is not zero.
pub record Saves (c : ResolveContext) (refund release : ℕ) (f : FinancialDispute)
    (d : BookingDeposit) (db' : Db) : Type 0 where
  pub saved :
      dispute_by_id c.dispute_id db'
      ≡ some (decided_row c.admin_id c.resolution refund release c.now f)
  pub resolving : deposit_of f.booking_id db' ≡ some (record d { status = DepositStatus.resolving })
  pub refund_made :
      has_operation f.id d.id OperationKind.refund refund (trim c.idempotency_key) db' ≡ true
  pub release_made :
      has_operation f.id d.id OperationKind.release_to_lender release (trim c.idempotency_key) db'
      ≡ true

-- A completion leaves these tables.
record Beside (db db' : Db) : Type 0 where
  disputes : db'.disputes ≡ db.disputes
  deposits : db'.deposits ≡ db.deposits
  operations : db'.operations ≡ db.operations

complete-Beside :
    (k : String) (now : ℕ) (trigger : CompletionTrigger) (db db' : Db) (n : ℕ)
    → complete_after_return k now trigger db ≡ ok (db', n)
    → Beside db db'
complete-Beside k now trigger db db' n e = elim (complete-Outcome k now trigger db db' n e) [
  | inl s ↦ rw s.1 (record { disputes = refl; deposits = refl; operations = refl })
  | inr s ↦ record {
    disputes = ap (λ d. d.disputes) s.1.written;
    deposits = ap (λ d. d.deposits) s.1.written;
    operations = ap (λ d. d.operations) s.1.written;
  }
]

-- The rows of the dispute and of the deposit, as they are found again.
decided_found :
    (c : ResolveContext) (refund release : ℕ) (f : FinancialDispute) (db : Db)
    → dispute_by_id c.dispute_id db ≡ some f
    → find_first
        (λ h. h.id == c.dispute_id)
        (update_many
          (λ h. h.id == f.id)
          (decided_row c.admin_id c.resolution refund release c.now)
          db.disputes)
      ≡ some (decided_row c.admin_id c.resolution refund release c.now f)
decided_found c refund release f db found =
    find_first-update_many (λ h. h.id == c.dispute_id) (λ h. h.id == f.id)
      (decided_row c.admin_id c.resolution refund release c.now) db.disputes
      (λ h. elim (Bool-cases (h.id == f.id)) [ inl t ↦ rw t | inr t ↦ rw t ])
    ∙ rw (found, eq_refl f.id) refl

resolving_found :
    (booking : String) (d : BookingDeposit) (db : Db)
    → deposit_of booking db ≡ some d
    → find_first
        (λ x. x.booking_id == booking)
        (set_deposit d.id DepositStatus.resolving db.deposits)
      ≡ some (record d { status = DepositStatus.resolving })
resolving_found booking d db found =
    find_first-update_many (λ x. x.booking_id == booking) (λ x. x.id == d.id)
      (λ x. record x { status = DepositStatus.resolving }) db.deposits
      (λ x. elim (Bool-cases (x.id == d.id)) [ inl t ↦ rw t | inr t ↦ rw t ])
    ∙ rw (found, eq_refl d.id) refl

pub write_decision-Saves :
    (c : ResolveContext) (refund release : ℕ) (f : FinancialDispute) (d : BookingDeposit)
    (db db' : Db) (g : FinancialDispute)
    → dispute_by_id c.dispute_id db ≡ some f
    → deposit_of f.booking_id db ≡ some d
    → write_decision c refund release f d db ≡ ok (db', g)
    → Saves c refund release f d db'
      × (g ≡ decided_row c.admin_id c.resolution refund release c.now f)
unfolding write_decision
write_decision-Saves c refund release f d db db' g found d_found e =
    let (with_refund, a, e1) =
      >>=-eq-ok
        (create_resolution_operation c.refund_id f.id d.id OperationKind.refund refund
          (trim c.idempotency_key) c.now db.operations)
        _ e in
    let (operations, b, e2) =
      >>=-eq-ok
        (create_resolution_operation c.release_id f.id d.id OperationKind.release_to_lender release
          (trim c.idempotency_key) c.now with_refund)
        _ e1 in
    let db1 : Db = record db {
      operations = operations;
      deposits = set_deposit d.id DepositStatus.resolving db.deposits;
      disputes =
          update_many (λ h. h.id == f.id) (decided_row c.admin_id c.resolution refund release c.now)
            db.disputes;
    } in
    let ((db2, m), done, e3) =
      >>=-eq-ok (complete_after_return f.booking_id c.now dispute_decided db1)
        (λ x. ok (x.0, decided_row c.admin_id c.resolution refund release c.now f)) e2 in
    let beside = complete-Beside f.booking_id c.now dispute_decided db1 db2 m done in
    let same : db' ≡ db2 = sym (ok-pair e3).0 in
    let made_first =
      create_resolution-Made c.refund_id f.id d.id OperationKind.refund refund
        (trim c.idempotency_key) c.now db.operations with_refund a in
    let refunds =
      create_resolution_keeps c.release_id f.id d.id OperationKind.release_to_lender release
        (trim c.idempotency_key) c.now with_refund operations OperationKind.refund refund b
        made_first in
    let releases =
      create_resolution-Made c.release_id f.id d.id OperationKind.release_to_lender release
        (trim c.idempotency_key) c.now with_refund operations b in
    (
      rw same (record {
        saved = rw beside.disputes (decided_found c refund release f db found);
        resolving = rw beside.deposits (resolving_found f.booking_id d db d_found);
        refund_made =
            has-Made f.id d.id OperationKind.refund refund (trim c.idempotency_key) db2
              (rw beside.operations refunds);
        release_made =
            has-Made f.id d.id OperationKind.release_to_lender release (trim c.idempotency_key) db2
              (rw beside.operations releases);
      }),
      sym (ok-pair e3).1,
    )
