-- ===== src/Domain/Status.antt =====
-- The enumerations of backend/prisma/schema.prisma, with `===` on each.
use sosedi_app.Prelude.{Bool, true, false}

pub data BookingStatus : Type 0 where
  pending confirmed active returned completed cancelled : BookingStatus

pub data DepositStatus : Type 0 where
  pending held disputed resolving resolved cancelled : DepositStatus

pub data DisputeStatus : Type 0 where
  open_dispute under_review resolved : DisputeStatus

pub data PaymentStatus : Type 0 where
  pending succeeded failed cancelled : PaymentStatus

pub data OperationKind : Type 0 where
  hold cancel refund release_to_lender : OperationKind

pub data OperationStatus : Type 0 where
  pending succeeded failed : OperationStatus

pub data ActStage : Type 0 where
  handover return : ActStage

pub data ItemStatus : Type 0 where
  pending approved rejected hidden : ItemStatus

abbrev pub booking_is : BookingStatus → BookingStatus → Bool
booking_is BookingStatus.pending BookingStatus.pending = true
booking_is BookingStatus.confirmed BookingStatus.confirmed = true
booking_is BookingStatus.active BookingStatus.active = true
booking_is BookingStatus.returned BookingStatus.returned = true
booking_is BookingStatus.completed BookingStatus.completed = true
booking_is BookingStatus.cancelled BookingStatus.cancelled = true
booking_is _ _ = false

abbrev pub deposit_is : DepositStatus → DepositStatus → Bool
deposit_is DepositStatus.pending DepositStatus.pending = true
deposit_is DepositStatus.held DepositStatus.held = true
deposit_is DepositStatus.disputed DepositStatus.disputed = true
deposit_is DepositStatus.resolving DepositStatus.resolving = true
deposit_is DepositStatus.resolved DepositStatus.resolved = true
deposit_is DepositStatus.cancelled DepositStatus.cancelled = true
deposit_is _ _ = false

abbrev pub dispute_is : DisputeStatus → DisputeStatus → Bool
dispute_is DisputeStatus.open_dispute DisputeStatus.open_dispute = true
dispute_is DisputeStatus.under_review DisputeStatus.under_review = true
dispute_is DisputeStatus.resolved DisputeStatus.resolved = true
dispute_is _ _ = false

abbrev pub payment_succeeded : PaymentStatus → Bool
payment_succeeded PaymentStatus.succeeded = true
payment_succeeded _ = false

abbrev pub kind_is : OperationKind → OperationKind → Bool
kind_is OperationKind.hold OperationKind.hold = true
kind_is OperationKind.cancel OperationKind.cancel = true
kind_is OperationKind.refund OperationKind.refund = true
kind_is OperationKind.release_to_lender OperationKind.release_to_lender = true
kind_is _ _ = false

abbrev pub operation_is : OperationStatus → OperationStatus → Bool
operation_is OperationStatus.pending OperationStatus.pending = true
operation_is OperationStatus.succeeded OperationStatus.succeeded = true
operation_is OperationStatus.failed OperationStatus.failed = true
operation_is _ _ = false

abbrev pub stage_is : ActStage → ActStage → Bool
stage_is ActStage.handover ActStage.handover = true
stage_is ActStage.return ActStage.return = true
stage_is _ _ = false

abbrev pub item_approved : ItemStatus → Bool
item_approved ItemStatus.approved = true
item_approved _ = false

-- The statuses in which a booking holds its dates: CONFIRMED, ACTIVE, RETURNED.
abbrev pub is_reserved : BookingStatus → Bool
is_reserved BookingStatus.confirmed = true
is_reserved BookingStatus.active = true
is_reserved BookingStatus.returned = true
is_reserved _ = false
