-- ===== src/Booking/Act.antt =====
-- backend/src/booking/booking-act.service.ts: the acts of handover and return. One participant
-- draws an act up, the other confirms it, and the booking moves on.
pub mod Laws
pub mod Drawing
pub mod Handover
use sosedi_app.Prelude.{
  Bool, List, Option, String, any, count_where, eqb, false, find_first, if◌then◌else◌, is_some, leb,
  ltb, none, not, some, true, update_many, ℕ, ◌&&◌, ◌*◌, ◌+◌, ◌==◌, ◌||◌, ◌∷◌,
}
use sosedi_app.Booking.Conflicts.{log}
use sosedi_app.Booking.Deal.{bound_terms}
use sosedi_app.Booking.Terms.{Snapshot, is_offline}
use sosedi_app.Domain.{
  Booking, BookingAct, BookingDeposit, Db, Readiness, Transition, UploadIntent, booking_event,
  create_event, deposit_of, participant_booking, payment_of,
}
use sosedi_app.Domain.Failure.{
  Result, act_already_confirmed, act_exists, act_not_found, booking_not_found, err,
  handover_not_held, handover_unpaid, intent_used, invalid_booking_transition, ok, or_throw,
  own_act, readiness_missing, readiness_unexpected, terms_invalid, throw_if, wrong_stage_actor,
  ◌>>=◌, ◌>>◌,
}
use sosedi_app.Domain.Status.{
  ActStage, BookingStatus, DepositStatus, booking_is, deposit_is, payment_succeeded, stage_is,
}
use sosedi_app.Payments.Completion.{complete_after_return, zero_deposit_return}
use sosedi_app.Text.{trim}

-- `ensureStageState`
abbrev pub stage_status : ActStage → BookingStatus
stage_status ActStage.handover = BookingStatus.confirmed
stage_status ActStage.return = BookingStatus.active

-- `nextStatus`
abbrev pub next_status : ActStage → BookingStatus
next_status ActStage.handover = BookingStatus.active
next_status ActStage.return = BookingStatus.returned

-- `ensureStageActor`: who draws the act up.
abbrev pub stage_author : ActStage → Booking → String
stage_author ActStage.handover b = b.lender_id
stage_author ActStage.return b = b.borrower_id

pub record CreateActDto : Type 0 where
  pub stage : ActStage
  pub intent_id : String
  pub is_working : Bool
  pub is_complete : Bool
  pub visible_defects : String
  pub has_readiness : Bool

-- `ensureReadiness`
unfoldable pub ensure_readiness : CreateActDto → Result (Unit {0})
ensure_readiness dto = do
  throw_if (stage_is ActStage.handover dto.stage && not dto.has_readiness) readiness_missing
  throw_if (stage_is ActStage.return dto.stage && dto.has_readiness) readiness_unexpected

abbrev readiness_of : CreateActDto → ℕ → Option Readiness
readiness_of dto now =
    if dto.has_readiness
    then some (record {
      is_working = dto.is_working;
      is_complete = dto.is_complete;
      visible_defects = trim dto.visible_defects;
      declared_at = now;
    })
    else none

abbrev is_replay : String → String → CreateActDto → BookingAct → Bool
is_replay actor booking dto a =
    a.booking_id == booking
    && (a.author_id == actor && (stage_is dto.stage a.stage && a.upload_intent_id == dto.intent_id))

-- The upload intents that the act may use: of the actor, for the booking, unused and not expired.
abbrev pub is_usable : String → String → String → ℕ → UploadIntent → Bool
is_usable k actor booking now u =
    u.id == k
    && (u.actor_id == actor
        && (u.entity_id == booking && (not (is_some u.confirmed_at) && not (leb u.expires_at now))))

-- An act with the same identifier, upload or stage of the booking.
abbrev pub is_rival_act : String → CreateActDto → String → BookingAct → Bool
is_rival_act booking dto act_id a =
    a.id == act_id
    || a.upload_intent_id == dto.intent_id
    || (a.booking_id == booking && stage_is dto.stage a.stage)

-- The transaction of `create`; `act_id` is the identifier of the act.
unfoldable pub create_act_row :
    String → String → CreateActDto → String → ℕ → Db → Result (Db × BookingAct)
create_act_row actor booking dto act_id now db = do
  b ← or_throw (participant_booking actor booking db) booking_not_found
  throw_if (not (booking_is (stage_status dto.stage) b.status)) invalid_booking_transition
  throw_if (not (actor == stage_author dto.stage b)) wrong_stage_actor
  throw_if (not (eqb (count_where (is_usable dto.intent_id actor booking now) db.upload_intents) 1))
      intent_used
  throw_if (any (is_rival_act booking dto act_id) db.acts) act_exists
  let a : BookingAct = record {
    id = act_id;
    booking_id = booking;
    author_id = actor;
    stage = dto.stage;
    upload_intent_id = dto.intent_id;
    readiness = readiness_of dto now;
    confirmed_by_id = none;
    confirmed_at = none;
  }
  ok (
    record db {
      acts = a ∷ db.acts;
      upload_intents =
          update_many (is_usable dto.intent_id actor booking now)
            (λ u. record u { confirmed_at = some now }) db.upload_intents;
    },
    a,
  )

-- `BookingActService.create`; `verified` is what `verifyBookingEvidenceIntent` answers.
unfoldable pub create_act :
    String → String → CreateActDto → Result (Unit {0}) → String → ℕ → Db → Result (Db × BookingAct)
unfolding ensure_readiness create_act_row
create_act actor booking dto verified act_id now db =
    elim (find_first (is_replay actor booking dto) db.acts) [
      | some a ↦ ok (db, a)
      | none ↦ (do ensure_readiness dto; verified; create_act_row actor booking dto act_id now db)
    ]

-- The demands of a safe deal before the handover: paid, and the deposit held.
unfoldable pub check_handover : ActStage → Option Snapshot → String → Db → Result (Unit {0})
check_handover ActStage.return s booking db = ok tt
check_handover ActStage.handover none booking db = ok tt
check_handover ActStage.handover (some s) booking db =
    if is_offline s.payment_scenario then ok tt else (do
      throw_if
          (not
            (elim (payment_of booking db) [ none ↦ false | some p ↦ payment_succeeded p.status ]))
          handover_unpaid
      throw_if
          (ltb 0 s.money_minor.deposit
            && not (elim (deposit_of booking db) [
              | none ↦ false
              | some d ↦ deposit_is DepositStatus.held d.status
            ]))
          handover_not_held)

-- The dispute window opens with the return of a safe deal that has a deposit.
abbrev pub window_end : ActStage → Option Snapshot → ℕ → Option ℕ
window_end ActStage.handover s now = none
window_end ActStage.return none now = none
window_end ActStage.return (some s) now =
    if is_offline s.payment_scenario then none else elim s.deposit_terms [
      | none ↦ none
      | some t ↦ some (now + t.dispute_window_seconds * 1000)
    ]

abbrev pub open_window : String → Option ℕ → List BookingDeposit → List BookingDeposit
open_window booking none deposits = deposits
open_window booking (some ends) deposits =
    update_many (λ d. d.booking_id == booking)
      (λ d. record d { dispute_window_ends_at = some ends }) deposits

abbrev pub stage_event : ActStage → String
stage_event ActStage.handover = "BOOKING_HANDOVER_CONFIRMED"
stage_event ActStage.return = "BOOKING_RETURN_CONFIRMED"

abbrev stage_message : ActStage → String
stage_message ActStage.handover = "Передача подтверждена обеими сторонами. Аренда началась."
stage_message ActStage.return = "Возврат подтверждён обеими сторонами."

abbrev act_transition : String → ActStage → Booking → Transition
act_transition actor stage b = record {
  booking_id = b.id;
  actor_id = some actor;
  actor_type = elim stage [
    | ActStage.handover ↦ "HANDOVER_CONFIRMER"
    | ActStage.return ↦ "RETURN_CONFIRMER"
  ];
  command = elim stage [
    | ActStage.handover ↦ "CONFIRM_HANDOVER"
    | ActStage.return ↦ "CONFIRM_RETURN"
  ];
  old_status = some b.status;
  new_status = next_status stage;
  reason = none;
}

abbrev pub confirmed_act : String → ℕ → BookingAct → BookingAct
confirmed_act actor now a = record a { confirmed_by_id = some actor; confirmed_at = some now }

abbrev pub moved_row : ActStage → Booking → Booking
moved_row stage b = record b { status = next_status stage }

-- `snapshot?.moneyMinor.deposit === 0` at a return
abbrev completes_at_once : ActStage → Option Snapshot → Bool
completes_at_once ActStage.handover s = false
completes_at_once ActStage.return none = false
completes_at_once ActStage.return (some s) = eqb s.money_minor.deposit 0

unfoldable pub complete_zero_deposit : Bool → String → ℕ → Db → Result Db
unfolding complete_after_return
complete_zero_deposit false booking now db = ok db
complete_zero_deposit true booking now db = do
  (db', n) ← complete_after_return booking now zero_deposit_return db
  ok db'

-- The writes of `confirm`.
unfoldable pub write_act :
    String → BookingAct → Booking → Option Snapshot → ℕ → Db → Result (Db × BookingAct)
unfolding create_event complete_zero_deposit
write_act actor a b s now db = do
  db' ← create_event (booking_event b.id (stage_event a.stage)) (
      log (act_transition actor a.stage b) (stage_message a.stage) (record db {
        acts = update_many (λ c. c.id == a.id) (confirmed_act actor now) db.acts;
        deposits = open_window b.id (window_end a.stage s now) db.deposits;
        bookings = update_many (λ c. c.id == b.id) (moved_row a.stage) db.bookings;
      }))
  db'' ← complete_zero_deposit (completes_at_once a.stage s) b.id now db'
  ok (db'', confirmed_act actor now a)

-- `act.confirmedAt` is set: by this actor, or by another one.
abbrev confirmed_by : String → BookingAct → Bool
confirmed_by actor a = elim a.confirmed_by_id [ none ↦ false | some c ↦ c == actor ]

-- The confirmation once the booking and the act are read.
unfoldable pub confirm_found :
    String → String → Booking → BookingAct → ℕ → Db → Result (Db × BookingAct)
unfolding check_handover write_act bound_terms
confirm_found actor booking b a now db = do
  throw_if (a.author_id == actor) own_act
  if is_some a.confirmed_at
      then (if confirmed_by actor a then ok (db, a) else err act_already_confirmed)
      else (do
        throw_if (not (booking_is (stage_status a.stage) b.status)) invalid_booking_transition
        throw_if (is_some b.terms_snapshot && not (is_some (bound_terms b))) terms_invalid
        check_handover a.stage (bound_terms b) booking db
        write_act actor a b (bound_terms b) now db)

-- `BookingActService.confirm`
unfoldable pub confirm_act : String → String → String → ℕ → Db → Result (Db × BookingAct)
unfolding confirm_found
confirm_act actor booking act_id now db = do
  b ← or_throw (participant_booking actor booking db) act_not_found
  a ← or_throw (find_first (λ a. a.id == act_id && a.booking_id == booking) db.acts) act_not_found
  confirm_found actor booking b a now db
