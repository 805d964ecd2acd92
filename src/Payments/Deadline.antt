-- ===== src/Payments/Deadline.antt =====
-- backend/src/payments/deposit-deadline.service.ts: a deposit that nobody disputed in time is
-- scheduled for its refund.
pub mod Once
use Prim.Native.String.{◌++◌}
use sosedi_app.Prelude.{
  Bool, Option, String, any, false, if◌then◌else◌, is_some, none, not, some, ℕ, ◌&&◌, ◌==◌, ◌||◌,
}
use sosedi_app.Domain.{Booking, BookingDeposit, Db, booking_by_id, dispute_of, is_due}
use sosedi_app.Domain.Failure.{Result, ok, ◌>>=◌, ◌>>◌}
use sosedi_app.Domain.Status.{BookingStatus, DepositStatus, OperationKind, booking_is, deposit_is}
use sosedi_app.Payments.Completion.{complete_after_return, dispute_window_closed}
use sosedi_app.Payments.Operations.{add_operation, deposit_by_id, pending_operation, set_deposit}

abbrev pub auto_refund_key : String → String
auto_refund_key deposit = "deposit:" ++ deposit ++ ":auto-refund"

abbrev pub window_over : ℕ → BookingDeposit → Bool
window_over now d = deposit_is DepositStatus.held d.status && is_due d.dispute_window_ends_at now

abbrev pub is_returned : Option Booking → Bool
is_returned none = false
is_returned (some b) = booking_is BookingStatus.returned b.status

-- The candidate is not to be refunded now.
abbrev pub skips : ℕ → Db → BookingDeposit → Bool
skips now db d =
    not (window_over now d)
    || not (is_returned (booking_by_id d.booking_id db))
    || is_some (dispute_of d.booking_id db)
    || any (λ o. o.idempotency_key == auto_refund_key d.id) db.operations

-- The writes of the transaction.
unfoldable pub schedule_refund : ℕ → String → BookingDeposit → Db → Result (Db × ℕ)
unfolding add_operation complete_after_return
schedule_refund now operation_id d db = do
  operations ←
      add_operation
        (pending_operation operation_id d.id OperationKind.refund d.amount (auto_refund_key d.id)
          none now)
        db.operations
  (db', n) ← complete_after_return d.booking_id now dispute_window_closed (record db {
    operations = operations;
    deposits = set_deposit d.id DepositStatus.resolving db.deposits;
  })
  ok (db', 1)

-- The transaction of one candidate, with the number of refunds that it scheduled.
unfoldable pub process_deadline : ℕ → String → String → Db → Result (Db × ℕ)
unfolding schedule_refund
process_deadline now k operation_id db = elim (deposit_by_id k db) [
  | none ↦ ok (db, 0)
  | some d ↦ if skips now db d then ok (db, 0) else schedule_refund now operation_id d db
]
