-- ===== src/Payments/Processor.antt =====
-- backend/src/payments/deposit-operation.processor.ts: the operations on deposits are claimed for a
-- time, put to the provider, and their outcomes applied. The metrics and the audit log are left out.
pub mod Laws
pub mod Once
use sosedi_app.Prelude.{
  Bool, Option, String, any, eqb, false, find_first, if◌then◌else◌, leb, ltb, min, none, not, some,
  true, update_many, ℕ, ◌&&◌, ◌*◌, ◌+◌, ◌-◌, ◌==◌, ◌^◌, ◌||◌,
}
use sosedi_app.Domain.{BookingDeposit, Db, DepositOperation, FinancialDispute, dispute_of}
use sosedi_app.Domain.Failure.{Result, err, ok, operation_exceeds_deposit, throw_if, ◌>>=◌, ◌>>◌}
use sosedi_app.Domain.Status.{
  DepositStatus, DisputeStatus, OperationKind, OperationStatus, deposit_is, kind_is, operation_is,
}
use sosedi_app.Payments.Completion.{complete_after_return, deposit_settled}
use sosedi_app.Payments.Operations.{deposit_by_id}
use sosedi_app.Payments.Policy.{MarketplacePolicy, is_fake_safe_deal}
use sosedi_app.Payments.Provider.{
  FakeOutcome, Provider, ProviderRequest, ProviderResult, execute, operation_request,
  provider_declined, provider_succeeded, provider_timeout,
}

abbrev pub operation_lease_ms : ℕ
operation_lease_ms = 60000

abbrev initial_retry_ms : ℕ
initial_retry_ms = 30000

abbrev max_retry_ms : ℕ
max_retry_ms = 3600000

abbrev pub lease_over : Option ℕ → ℕ → Bool
lease_over none now = true
lease_over (some t) now = leb t now

-- The condition under which an operation is claimed.
abbrev pub is_claimable : ℕ → DepositOperation → Bool
is_claimable now o =
    operation_is OperationStatus.pending o.status
    && (leb o.next_attempt_at now && lease_over o.processing_until now)

abbrev pub claimed_row : ℕ → DepositOperation → DepositOperation
claimed_row now o = record o {
  processing_until = some (now + operation_lease_ms);
  attempts = o.attempts + 1;
}

abbrev pub claims : String → ℕ → DepositOperation → Bool
claims k now o = o.id == k && is_claimable now o

-- The transaction of `processOne` that claims an operation.
unfoldable pub claim : String → ℕ → Db → Option (Db × DepositOperation)
claim k now db = elim (find_first (claims k now) db.operations) [
  | none ↦ none
  | some o ↦ some (
    record db { operations = update_many (claims k now) (claimed_row now) db.operations },
    claimed_row now o,
  )
]

-- The delay before attempt number `attempts + 1`.
unfoldable pub retry_delay : ℕ → ℕ
retry_delay attempts = min (initial_retry_ms * 2 ^ min (attempts - 1) 10) max_retry_ms

-- The rows that a second `updateMany` under the same lease reaches.
abbrev pub is_leased : String → ℕ → DepositOperation → Bool
is_leased k lease o =
    o.id == k
    && (operation_is OperationStatus.pending o.status
        && elim o.processing_until [ none ↦ false | some t ↦ eqb t lease ])

abbrev pub set_operation : String → ℕ → (DepositOperation → DepositOperation) → Db → Db
set_operation k lease f db = record db {
  operations = update_many (is_leased k lease) f db.operations;
}

abbrev pub next_refunded : DepositOperation → BookingDeposit → ℕ
next_refunded o d =
    if kind_is OperationKind.refund o.kind then d.refunded_amount + o.amount else d.refunded_amount

abbrev pub next_released : DepositOperation → BookingDeposit → ℕ
next_released o d =
    if kind_is OperationKind.release_to_lender o.kind
    then d.released_to_lender_amount + o.amount
    else d.released_to_lender_amount

abbrev pub is_settlement : OperationKind → Bool
is_settlement OperationKind.refund = true
is_settlement OperationKind.release_to_lender = true
is_settlement _ = false

-- A leg of the decision that has money has an operation that succeeded.
abbrev pub leg_done : String → OperationKind → ℕ → Db → Bool
leg_done deposit kind amount db =
    eqb amount 0
    || any
        (λ o.
          o.deposit_id == deposit
          && (kind_is kind o.kind
              && (eqb o.amount amount && operation_is OperationStatus.succeeded o.status)))
        db.operations

-- `requiredLegs`: without a decision nothing more is required.
abbrev pub legs_done : String → Option FinancialDispute → Db → Bool
legs_done deposit none db = true
legs_done deposit (some f) db = elim f.status [
  | DisputeStatus.open_dispute ↦ true
  | _ ↦
      leg_done deposit OperationKind.refund f.refund_to_borrower_amount db
      && leg_done deposit OperationKind.release_to_lender f.release_to_lender_amount db
]

-- The deposit after an operation that succeeded.
abbrev pub settled_row : DepositOperation → Bool → BookingDeposit → BookingDeposit
settled_row o done d = record d {
  refunded_amount = next_refunded o d;
  released_to_lender_amount = next_released o d;
  status = if done then DepositStatus.resolved else DepositStatus.resolving;
}

abbrev pub succeeded_row : ℕ → String → DepositOperation → DepositOperation
succeeded_row now provider_id o = record o {
  status = OperationStatus.succeeded;
  processing_until = none;
  provider_operation_id = some provider_id;
  provider_error_code = none;
  completed_at = some now;
}

abbrev pub failed_row : ℕ → String → DepositOperation → DepositOperation
failed_row now code o = record o {
  status = OperationStatus.failed;
  processing_until = none;
  provider_error_code = some code;
  completed_at = some now;
}

abbrev pub postponed_row : ℕ → ℕ → DepositOperation → DepositOperation
postponed_row now attempts o = record o {
  processing_until = none;
  next_attempt_at = now + retry_delay attempts;
}

-- The booking is completed where the deposit has become whole.
unfoldable pub finish : String → ℕ → Bool → Db → Result Db
unfolding complete_after_return
finish booking now true db = do
  (db', n) ← complete_after_return booking now deposit_settled db
  ok db'
finish booking now false db = ok db

-- The branch of `applyOutcome` for a success.
unfoldable pub settle :
    String → String → ℕ → ℕ → String → DepositOperation → BookingDeposit → Db → Result Db
unfolding finish
settle k booking lease now provider_id o d db = do
  throw_if (not (is_settlement o.kind) || ltb d.amount (next_refunded o d + next_released o d))
      operation_exceeds_deposit
  let db' : Db = set_operation k lease (succeeded_row now provider_id) db
  let done : Bool =
      eqb (next_refunded o d + next_released o d) d.amount
      && legs_done o.deposit_id (dispute_of booking db') db'
  finish booking now done (record db' {
    deposits = update_many (λ e. e.id == o.deposit_id) (settled_row o done) db'.deposits;
  })

-- `applyOutcome`: the outcome counts only under the lease of the claim.
unfoldable pub apply_outcome : String → String → ℕ → ℕ → ProviderResult → ℕ → Db → Result Db
unfolding settle retry_delay
apply_outcome k booking attempts lease outcome now db =
    elim (find_first (is_leased k lease) db.operations) [
      | none ↦ ok db
      | some o ↦ elim outcome [
        | provider_timeout ↦ ok (set_operation k lease (postponed_row now attempts) db)
        | provider_declined code ↦ ok (set_operation k lease (failed_row now code) db)
        | provider_succeeded provider_id ↦ elim (deposit_by_id o.deposit_id db) [
          | none ↦ ok db
          | some d ↦
              if deposit_is DepositStatus.resolving d.status
              then settle k booking lease now provider_id o d db
              else ok db
        ]
      ]
    ]

abbrev pub execution_request : DepositOperation → ProviderRequest
execution_request o =
    operation_request o.idempotency_key o.deposit_id o.kind o.amount FakeOutcome.success

module _ (digest : String → String) where
  -- The call of the provider; an exception of it counts as a timeout.
  unfoldable pub call_provider :
      MarketplacePolicy → DepositOperation → Provider → Provider × ProviderResult
  unfolding execute
  call_provider policy o provider =
      if is_fake_safe_deal policy.payment_scenario
      then elim (execute digest (execution_request o) provider) [
        | err e ↦ (provider, provider_timeout)
        | ok (provider', r) ↦ (provider', r)
      ]
      else (provider, provider_timeout)

  -- `processOne` with no other command between its transactions; `none` is an operation that could
  -- not be claimed. The claim is committed also where applying the outcome fails.
  unfoldable pub process_one :
      MarketplacePolicy → String → ℕ → Provider → Db → Provider × Db × Result ℕ
  unfolding claim call_provider apply_outcome
  process_one policy k now provider db = elim (claim k now db) [
    | none ↦ (provider, db, ok 0)
    | some (db', o) ↦ elim (deposit_by_id o.deposit_id db') [
      | none ↦ (provider, db', ok 0)
      | some d ↦
          let (provider', r) = call_provider policy o provider in
          elim (apply_outcome k d.booking_id o.attempts (now + operation_lease_ms) r now db') [
            | err e ↦ (provider', db', err e)
            | ok db'' ↦ (provider', db'', ok 1)
          ]
    ]
  ]
