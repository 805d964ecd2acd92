-- ===== src/Workflow.antt =====
-- backend/src/common/domain/workflow-contract.ts: the contract of the booking's statuses, and what
-- it means for one status to follow another.
use sosedi_app.Prelude.{Bool, List, String, [], any, arith, true, ◌&&◌, ◌∷◌, ◌≡◌}
use sosedi_app.Domain.Status.{BookingStatus, booking_is}

pub data WorkflowActor : Type 0 where
  borrower_actor lender_actor system_actor : WorkflowActor

pub record WorkflowTransition : Type 0 where
  pub command : String
  pub from_status : BookingStatus
  pub to_status : BookingStatus
  pub actors : List WorkflowActor
  pub preconditions : List String

abbrev participants : List WorkflowActor
participants = borrower_actor ∷ lender_actor ∷ []

abbrev transition_of :
    String → BookingStatus → BookingStatus → List WorkflowActor → List String → WorkflowTransition
transition_of command s t actors preconditions = record {
  command = command;
  from_status = s;
  to_status = t;
  actors = actors;
  preconditions = preconditions;
}

-- `WORKFLOW_CONTRACTS.booking.transitions`
abbrev pub booking_contract : List WorkflowTransition
booking_contract =
    transition_of "confirm" BookingStatus.pending BookingStatus.confirmed (lender_actor ∷ [])
      ("notExpired" ∷ "periodAvailable" ∷ "versionMatches" ∷ [])
    ∷ transition_of "cancel" BookingStatus.pending BookingStatus.cancelled participants
        ("participant" ∷ "versionMatches" ∷ [])
    ∷ transition_of "expire" BookingStatus.pending BookingStatus.cancelled (system_actor ∷ [])
        ("expiresAtReached" ∷ "reasonIsPendingTimeout" ∷ [])
    ∷ transition_of "cancel" BookingStatus.confirmed BookingStatus.cancelled participants
        ("participant" ∷ "cancellationPolicyAllows" ∷ [])
    ∷ transition_of "activate" BookingStatus.confirmed BookingStatus.active participants
        ("participant" ∷ "handoverConfirmedByBoth" ∷ [])
    ∷ transition_of "return" BookingStatus.active BookingStatus.returned participants
        ("participant" ∷ "returnConfirmedByBoth" ∷ [])
    ∷ transition_of "complete" BookingStatus.returned BookingStatus.completed (system_actor ∷ [])
        ("disputeWindowClosed" ∷ "noOpenDispute" ∷ [])
    ∷ []

-- The contract has a transition from the one status to the other.
unfoldable pub allows : BookingStatus → BookingStatus → Bool
allows s t = any (λ w. booking_is w.from_status s && booking_is w.to_status t) booking_contract

-- Any number of transitions of the contract.
pub data Follows : BookingStatus → BookingStatus → Type 0 where
  stays : {s : BookingStatus} → Follows s s
  moves : {s t u : BookingStatus} → allows s t ≡ true → Follows t u → Follows s u

pub Follows-trans : {s t u : BookingStatus} → Follows s t → Follows t u → Follows s u
Follows-trans stays g = g
Follows-trans (moves h f) g = moves h (Follows-trans f g)

-- One transition.
pub Follows-once : (s t : BookingStatus) → allows s t ≡ true → Follows s t
Follows-once s t h = moves {t = t} h stays

pub confirm_allowed :
    (s : BookingStatus)
    → booking_is BookingStatus.pending s ≡ true
    → allows s BookingStatus.confirmed ≡ true
unfolding allows
confirm_allowed s h = ground arith

pub expiry_allowed :
    (s : BookingStatus)
    → booking_is BookingStatus.pending s ≡ true
    → allows s BookingStatus.cancelled ≡ true
unfolding allows
expiry_allowed s h = ground arith

pub cancel_allowed :
    (s : BookingStatus)
    → booking_is BookingStatus.confirmed s ≡ true
    → allows s BookingStatus.cancelled ≡ true
unfolding allows
cancel_allowed s h = ground arith

pub activate_allowed :
    (s : BookingStatus)
    → booking_is BookingStatus.confirmed s ≡ true
    → allows s BookingStatus.active ≡ true
unfolding allows
activate_allowed s h = ground arith

pub return_allowed :
    (s : BookingStatus)
    → booking_is BookingStatus.active s ≡ true
    → allows s BookingStatus.returned ≡ true
unfolding allows
return_allowed s h = ground arith

pub complete_allowed :
    (s : BookingStatus)
    → booking_is BookingStatus.returned s ≡ true
    → allows s BookingStatus.completed ≡ true
unfolding allows
complete_allowed s h = ground arith
