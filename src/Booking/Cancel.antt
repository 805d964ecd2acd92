-- ===== src/Booking/Cancel.antt =====
-- `BookingService.cancelPending` and `rejectExtension` of backend/src/booking/booking.service.ts: a
-- participant withdraws a request, or a confirmed safe deal before the handover.
pub mod Laws
pub mod Repeat
use Prim.Native.String.{◌++◌}
use sosedi_app.Prelude.{
  Bool, Option, String, false, if◌then◌else◌, none, not, some, update_many, ℕ, ◌&&◌, ◌==◌,
}
use sosedi_app.Booking.Confirm.{cancelled_row, may_confirm}
use sosedi_app.Booking.Conflicts.{log}
use sosedi_app.Booking.Deal.{is_safe_deal}
use sosedi_app.Domain.{
  Booking, BookingDeposit, Db, Transition, booking_event, create_event, deposit_of,
  participant_booking,
}
use sosedi_app.Domain.Failure.{
  Result, booking_not_found, err, extension_not_supported, fake_safe_deal_required,
  invalid_booking_transition, invalid_deposit_transition, ok, or_throw, throw_if, ◌>>=◌, ◌>>◌,
}
use sosedi_app.Domain.Status.{BookingStatus, DepositStatus, OperationKind, booking_is, deposit_is}
use sosedi_app.Payments.Operations.{add_operation, pending_operation, set_deposit}
use sosedi_app.Payments.Policy.{MarketplacePolicy, is_fake_safe_deal}

abbrev borrower_reason : String
borrower_reason = "BORROWER_CANCELLED"

abbrev lender_reason : String
lender_reason = "LENDER_DECLINED"

-- `BOOKING_BORROWER_CANCELLATION_REASON` or `BOOKING_LENDER_CANCELLATION_REASON`
abbrev pub cancel_reason : String → Booking → String
cancel_reason actor b = if b.borrower_id == actor then borrower_reason else lender_reason

abbrev pub has_reason : String → Booking → Bool
has_reason reason b = elim b.cancellation_reason [ none ↦ false | some r ↦ r == reason ]

-- `isConfirmedFake`
abbrev pub confirmed_safe_deal : Booking → Bool
confirmed_safe_deal b = booking_is BookingStatus.confirmed b.status && is_safe_deal b

abbrev pub blocks_cancel : Option BookingDeposit → Bool
blocks_cancel none = false
blocks_cancel (some d) =
    not (deposit_is DepositStatus.pending d.status) && not (deposit_is DepositStatus.held d.status)

abbrev pub pre_handover_refund_key : String → String
pre_handover_refund_key deposit = "deposit:" ++ deposit ++ ":pre-handover-refund"

-- What the cancellation does to the deposit: a pending one is cancelled, a held one is to be
-- refunded.
unfoldable pub cancel_deposit : String → ℕ → Option BookingDeposit → Db → Result Db
unfolding add_operation
cancel_deposit operation_id now none db = ok db
cancel_deposit operation_id now (some d) db =
    if deposit_is DepositStatus.pending d.status
    then ok (record db { deposits = set_deposit d.id DepositStatus.cancelled db.deposits })
    else if deposit_is DepositStatus.held d.status
    then (do
      operations ←
          add_operation
            (pending_operation operation_id d.id OperationKind.refund d.amount
              (pre_handover_refund_key d.id) none now)
            db.operations
      ok (record db {
        deposits = set_deposit d.id DepositStatus.resolving db.deposits;
        operations = operations;
      }))
    else ok db

abbrev pub cancel_transition : String → Booking → Transition
cancel_transition actor b = record {
  booking_id = b.id;
  actor_id = some actor;
  actor_type = if b.borrower_id == actor then "BORROWER" else "LENDER";
  command = "CANCEL";
  old_status = some b.status;
  new_status = BookingStatus.cancelled;
  reason = some (cancel_reason actor b);
}

abbrev pub cancel_message : String → Booking → String
cancel_message actor b =
    if b.borrower_id == actor then "Арендатор отменил заявку." else "Владелец отклонил заявку."

-- The row of the booking.
abbrev pub cancelled_bookings : String → Booking → Db → Db
cancelled_bookings actor b db = record db {
  bookings = update_many (λ c. c.id == b.id) (cancelled_row (cancel_reason actor b)) db.bookings;
}

-- The writes of `cancelPending`.
unfoldable pub write_cancel : String → String → ℕ → Booking → Db → Result (Db × Booking)
unfolding cancel_deposit create_event
write_cancel actor operation_id now b db = do
  db' ← cancel_deposit operation_id now (deposit_of b.id db) (cancelled_bookings actor b db)
  db'' ←
      create_event (booking_event b.id "BOOKING_CANCELLED")
        (log (cancel_transition actor b) (cancel_message actor b) db')
  ok (db'', cancelled_row (cancel_reason actor b) b)

-- The repetition of a cancellation by the same participant.
abbrev pub already_cancelled : String → Booking → Bool
already_cancelled actor b =
    booking_is BookingStatus.cancelled b.status && has_reason (cancel_reason actor b) b

-- The checks on a cancellation that is no repetition, and its writes.
unfoldable pub cancel_now :
    MarketplacePolicy → String → String → ℕ → Booking → Db → Result (Db × Booking)
unfolding is_safe_deal write_cancel
cancel_now policy actor operation_id now b db = do
  throw_if (confirmed_safe_deal b && not (is_fake_safe_deal policy.payment_scenario))
      fake_safe_deal_required
  throw_if (not (may_confirm now b) && not (confirmed_safe_deal b)) invalid_booking_transition
  throw_if (confirmed_safe_deal b && blocks_cancel (deposit_of b.id db)) invalid_deposit_transition
  write_cancel actor operation_id now b db

-- `BookingService.cancelPending`; `operation_id` is the identifier of the refund, if there is one.
unfoldable pub cancel_pending :
    MarketplacePolicy → String → String → String → ℕ → Db → Result (Db × Booking)
unfolding cancel_now
cancel_pending policy actor k operation_id now db = do
  b ← or_throw (participant_booking actor k db) booking_not_found
  if already_cancelled actor b then ok (db, b) else cancel_now policy actor operation_id now b db

-- `BookingService.rejectExtension`: it always throws.
unfoldable pub reject_extension : String → String → Db → Result (Db × Booking)
reject_extension actor k db = do
  b ← or_throw (participant_booking actor k db) booking_not_found
  err extension_not_supported
