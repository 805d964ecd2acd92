-- ===== src/Payments/Operations.antt =====
-- The operations on a deposit as the services of backend/src/payments and backend/src/booking create
-- them (`depositOperation.create`), and the updates of a deposit's status.
use sosedi_app.Prelude.{
  List, Option, String, any, find_first, if◌then◌else◌, none, update_many, ℕ, ◌==◌, ◌||◌, ◌∷◌,
}
use sosedi_app.Domain.{BookingDeposit, Db, DepositOperation}
use sosedi_app.Domain.Failure.{Result, err, ok, unique_violation}
use sosedi_app.Domain.Status.{DepositStatus, OperationKind, OperationStatus}

abbrev pub set_deposit : String → DepositStatus → List BookingDeposit → List BookingDeposit
set_deposit k status = update_many (λ d. d.id == k) (λ d. record d { status = status })

-- A new operation on a deposit; the key is unique.
unfoldable pub add_operation :
    DepositOperation → List DepositOperation → Result (List DepositOperation)
add_operation o operations =
    if any (λ p. p.id == o.id || p.idempotency_key == o.idempotency_key) operations
    then err unique_violation
    else ok (o ∷ operations)

abbrev pub pending_operation :
    String → String → OperationKind → ℕ → String → Option String → ℕ → DepositOperation
pending_operation k deposit kind amount key retry_of now = record {
  id = k;
  deposit_id = deposit;
  kind = kind;
  amount = amount;
  status = OperationStatus.pending;
  idempotency_key = key;
  provider_operation_id = none;
  retry_of_id = retry_of;
  provider_error_code = none;
  attempts = 0;
  next_attempt_at = now;
  processing_until = none;
  completed_at = none;
}

abbrev pub operation_by_id : String → Db → Option DepositOperation
operation_by_id k db = find_first (λ o. o.id == k) db.operations

abbrev pub deposit_by_id : String → Db → Option BookingDeposit
deposit_by_id k db = find_first (λ d. d.id == k) db.deposits
