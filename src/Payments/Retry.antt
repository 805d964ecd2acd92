-- ===== src/Payments/Retry.antt =====
-- `DepositService.retryFailedOperation` of backend/src/payments/deposit.service.ts: an administrator
-- repeats a leg of a decision on a deposit that the provider declined. The audit log is left out.
use Prim.Native.String.{◌++◌}
use sosedi_app.Prelude.{
  Bool, Option, String, any, eqb, false, find_first, if◌then◌else◌, ltb, none, not, some, true, ℕ,
  ◌&&◌, ◌==◌,
}
use sosedi_app.Domain.{BookingDeposit, Db, DepositOperation, FinancialDispute, dispute_of}
use sosedi_app.Domain.Failure.{
  Result, err, idempotency_key_missing, ok, operation_key_reused, operation_not_found,
  operation_not_retryable, or_throw, retry_exists, throw_if, ◌>>=◌, ◌>>◌,
}
use sosedi_app.Domain.Status.{
  DepositStatus, DisputeStatus, OperationKind, OperationStatus, deposit_is, kind_is, operation_is,
}
use sosedi_app.Payments.Operations.{
  add_operation, deposit_by_id, operation_by_id, pending_operation,
}
use sosedi_app.Payments.Policy.{MarketplacePolicy, require_fake_safe_deal}
use sosedi_app.Text.{is_empty, trim}

abbrev pub retry_key : String → String → String
retry_key operation command = "deposit-operation:" ++ operation ++ ":retry:" ++ command

abbrev retries : String → DepositOperation → Bool
retries k o = elim o.retry_of_id [ none ↦ false | some r ↦ r == k ]

-- The retry that an earlier call with the same key made, if it is one of this operation.
abbrev same_retry : DepositOperation → DepositOperation → Bool
same_retry o e =
    retries o.id e
    && (e.deposit_id == o.deposit_id && (kind_is e.kind o.kind && eqb e.amount o.amount))

-- `requiredAmount`, and the status of the dispute
abbrev required_amount : OperationKind → FinancialDispute → ℕ
required_amount OperationKind.refund f = f.refund_to_borrower_amount
required_amount OperationKind.release_to_lender f = f.release_to_lender_amount
required_amount _ f = 0

abbrev is_decision : DisputeStatus → Bool
is_decision DisputeStatus.open_dispute = false
is_decision _ = true

abbrev pub may_retry : DepositOperation → BookingDeposit → Option FinancialDispute → Bool
may_retry o d none = false
may_retry o d (some f) =
    operation_is OperationStatus.failed o.status
    && (deposit_is DepositStatus.resolving d.status
        && (is_decision f.status
            && (ltb 0 (required_amount o.kind f) && eqb (required_amount o.kind f) o.amount)))

-- The part of `retryFailedOperation` that stands in the transaction.
unfoldable pub retry_operation : String → String → String → ℕ → Db → Result (Db × DepositOperation)
unfolding add_operation
retry_operation k command new_id now db = do
  o ← or_throw (operation_by_id k db) operation_not_found
  d ← or_throw (deposit_by_id o.deposit_id db) operation_not_found
  elim (find_first (λ e. e.idempotency_key == retry_key o.id command) db.operations) [
    | some e ↦ if same_retry o e then ok (db, e) else err operation_key_reused
    | none ↦ (do
      throw_if (not (may_retry o d (dispute_of d.booking_id db))) operation_not_retryable
      throw_if (any (retries o.id) db.operations) retry_exists
      let r : DepositOperation =
          pending_operation new_id o.deposit_id o.kind o.amount (retry_key o.id command) (some o.id)
            now
      operations ← add_operation r db.operations
      ok (record db { operations = operations }, r))
  ]

-- `DepositService.retryFailedOperation`
unfoldable pub retry_failed_operation :
    MarketplacePolicy → String → String → String → ℕ → Db → Result (Db × DepositOperation)
unfolding retry_operation require_fake_safe_deal trim
retry_failed_operation policy k idempotency_key new_id now db = do
  require_fake_safe_deal policy
  throw_if (is_empty (trim idempotency_key)) idempotency_key_missing
  retry_operation k (trim idempotency_key) new_id now db
