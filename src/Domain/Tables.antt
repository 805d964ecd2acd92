-- ===== src/Domain/Tables.antt =====
-- The tables. Identifiers and texts are strings; money is in kopecks, as the columns of type
-- `Decimal(10, 2)` hold it; instants are milliseconds, and the columns of type `Date` count days.
use sosedi_app.Prelude.{
  ℕ, ◌+◌, String, Bool, false, not, ◌&&◌, ◌||◌, Option, none, some, List, [], ◌∷◌, ◌==◌, leb,
  if◌then◌else◌, find_first, any,
}
use Prim.Native.String.{◌++◌}
use sosedi_app.Prelude.Int.{ℤ, sub_ℕ}
use sosedi_app.Json.{Json}
use sosedi_app.Domain.Status.{
  BookingStatus, DepositStatus, DisputeStatus, PaymentStatus, OperationKind, OperationStatus,
  ActStage, ItemStatus,
}
use sosedi_app.Domain.Failure.{Result, ok, err, unique_violation}

pub record Item : Type 0 where
  pub id : String
  pub owner_id : String
  pub title : String
  pub price_per_day : ℕ
  pub deposit_amount : Option ℕ
  pub public_area : String
  pub address : String
  pub latitude : ℤ
  pub longitude : ℤ
  pub listing_rules_version : Option String
  pub updated_at : String
  pub status : ItemStatus
  pub owner_name : Option String
  pub owner_blocked : Bool
  pub owner_deleted : Bool

pub record UserBlock : Type 0 where
  pub blocker_id : String
  pub blocked_id : String

pub record UnavailablePeriod : Type 0 where
  pub id : String
  pub item_id : String
  pub start_date : ℕ
  pub end_date : ℕ

pub record Booking : Type 0 where
  pub id : String
  pub item_id : String
  pub borrower_id : String
  pub lender_id : String
  pub client_request_id : Option String
  pub client_request_hash : Option String
  pub start_date : ℕ
  pub end_date : ℕ
  pub total_amount : ℕ
  pub status : BookingStatus
  pub expires_at : Option ℕ
  pub cancellation_reason : Option String
  pub terms_snapshot : Option Json

pub record BookingDeposit : Type 0 where
  pub id : String
  pub booking_id : String
  pub amount : ℕ
  pub policy_version : String
  pub dispute_window_seconds : ℕ
  pub status : DepositStatus
  pub dispute_window_ends_at : Option ℕ
  pub refunded_amount : ℕ
  pub released_to_lender_amount : ℕ

pub record DepositOperation : Type 0 where
  pub id : String
  pub deposit_id : String
  pub kind : OperationKind
  pub amount : ℕ
  pub status : OperationStatus
  pub idempotency_key : String
  pub provider_operation_id : Option String
  pub retry_of_id : Option String
  pub provider_error_code : Option String
  pub attempts : ℕ
  pub next_attempt_at : ℕ
  pub processing_until : Option ℕ
  pub completed_at : Option ℕ

pub record FinancialDispute : Type 0 where
  pub id : String
  pub booking_id : String
  pub opened_by_id : String
  pub resolved_by_id : Option String
  pub status : DisputeStatus
  pub decision_reason : Option String
  pub refund_to_borrower_amount : ℕ
  pub release_to_lender_amount : ℕ
  pub opened_at : ℕ
  pub resolved_at : Option ℕ

pub record Payment : Type 0 where
  pub booking_id : String
  pub user_id : String
  pub amount : ℕ
  pub status : PaymentStatus
  pub yookassa_payment_id : Option String

pub record Readiness : Type 0 where
  pub is_working : Bool
  pub is_complete : Bool
  pub visible_defects : String
  pub declared_at : ℕ

-- An act, with the upload that is its evidence.
pub record BookingAct : Type 0 where
  pub id : String
  pub booking_id : String
  pub author_id : String
  pub stage : ActStage
  pub upload_intent_id : String
  pub readiness : Option Readiness
  pub confirmed_by_id : Option String
  pub confirmed_at : Option ℕ

pub record UploadIntent : Type 0 where
  pub id : String
  pub actor_id : String
  pub entity_id : String
  pub expires_at : ℕ
  pub confirmed_at : Option ℕ

pub record Transition : Type 0 where
  pub booking_id : String
  pub actor_id : Option String
  pub actor_type : String
  pub command : String
  pub old_status : Option BookingStatus
  pub new_status : BookingStatus
  pub reason : Option String

pub record OutboxEvent : Type 0 where
  pub booking_id : String
  pub event_type : String
  pub deduplication_key : String

pub record SystemMessage : Type 0 where
  pub booking_id : String
  pub body : String

pub record Db : Type 0 where
  pub items : List Item
  pub user_blocks : List UserBlock
  pub unavailable_periods : List UnavailablePeriod
  pub bookings : List Booking
  pub deposits : List BookingDeposit
  pub operations : List DepositOperation
  pub disputes : List FinancialDispute
  pub payments : List Payment
  pub acts : List BookingAct
  pub upload_intents : List UploadIntent
  pub transitions : List Transition
  pub outbox : List OutboxEvent
  pub messages : List SystemMessage

-- `endDate - startDate` in whole days, the last day counted.
abbrev pub rental_days : ℕ → ℕ → ℤ
rental_days start end_day = sub_ℕ (end_day + 1) start

-- `startDate: { lte: last }, endDate: { gte: first }`
abbrev pub overlaps : ℕ → ℕ → ℕ → ℕ → Bool
overlaps first last start end_day = leb start last && leb first end_day

abbrev pub is_after : Option ℕ → ℕ → Bool
is_after none now = false
is_after (some t) now = not (leb t now)

abbrev pub is_due : Option ℕ → ℕ → Bool
is_due none now = false
is_due (some t) now = leb t now

abbrev pub booking_by_id : String → Db → Option Booking
booking_by_id k db = find_first (λ b. b.id == k) db.bookings

abbrev pub deposit_of : String → Db → Option BookingDeposit
deposit_of booking db = find_first (λ d. d.booking_id == booking) db.deposits

abbrev pub dispute_of : String → Db → Option FinancialDispute
dispute_of booking db = find_first (λ d. d.booking_id == booking) db.disputes

abbrev pub payment_of : String → Db → Option Payment
payment_of booking db = find_first (λ p. p.booking_id == booking) db.payments

-- `where: { id, OR: [{ borrowerId: actor }, { lenderId: actor }] }`
abbrev pub participates : String → String → Booking → Bool
participates actor k b = b.id == k && (b.borrower_id == actor || b.lender_id == actor)

abbrev pub participant_booking : String → String → Db → Option Booking
participant_booking actor k db = find_first (participates actor k) db.bookings

-- `bookingEventKey` of backend/src/booking/booking-events.ts
unfoldable pub booking_event_key : String → String → String
booking_event_key booking event = "booking:" ++ booking ++ ":" ++ event

unfoldable pub booking_event : String → String → OutboxEvent
unfolding booking_event_key
booking_event booking event = record {
  booking_id = booking;
  event_type = event;
  deduplication_key = booking_event_key booking event;
}

abbrev pub same_key : OutboxEvent → OutboxEvent → Bool
same_key e f = e.deduplication_key == f.deduplication_key

-- `notificationOutboxEvent.create`: the deduplication key is unique.
unfoldable pub create_event : OutboxEvent → Db → Result Db
create_event e db =
    if any (same_key e) db.outbox
    then err unique_violation
    else ok (record db { outbox = e ∷ db.outbox })

-- `createMany` with `skipDuplicates`
abbrev pub add_events : List OutboxEvent → List OutboxEvent → List OutboxEvent
add_events [] outbox = outbox
add_events (e ∷ es) outbox = add_events es (if any (same_key e) outbox then outbox else e ∷ outbox)
