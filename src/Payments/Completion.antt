-- ===== src/Payments/Completion.antt =====
-- `completeBookingAfterReturnInTransaction` of backend/src/payments/deposit.service.ts: a returned
-- booking is completed, once per trigger that may do so.
pub mod Laws
pub mod Safety
use sosedi_app.Prelude.{
  Bool, Option, String, eqb, false, if◌then◌else◌, is_some, leb, none, not, some, true, update_many,
  ℕ, ◌&&◌, ◌+◌, ◌==◌, ◌||◌, ◌∷◌,
}
use sosedi_app.Domain.{
  Booking, BookingDeposit, Db, FinancialDispute, Transition, booking_by_id, booking_event,
  create_event, deposit_of, dispute_of, is_due,
}
use sosedi_app.Domain.Failure.{
  Result, deposit_not_settled, err, ok, unexpected_deposit, ◌>>=◌, ◌>>◌,
}
use sosedi_app.Domain.Status.{
  BookingStatus, DepositStatus, DisputeStatus, booking_is, deposit_is, dispute_is,
}

pub data CompletionTrigger : Type 0 where
  deposit_settled dispute_decided dispute_window_closed zero_deposit_return : CompletionTrigger

-- `assertDepositSettledForCompletionOrPayout`
abbrev pub is_settled : BookingDeposit → Bool
is_settled d =
    deposit_is DepositStatus.resolved d.status
    && eqb (d.refunded_amount + d.released_to_lender_amount) d.amount

-- The `status` of a dispute is RESOLVED, where there is one.
abbrev pub is_decided : Option FinancialDispute → Bool
is_decided none = false
is_decided (some f) = dispute_is DisputeStatus.resolved f.status

abbrev pub is_undecided : Option FinancialDispute → Bool
is_undecided none = false
is_undecided (some f) = not (dispute_is DisputeStatus.resolved f.status)

-- `DEPOSIT_SETTLED`
unfoldable pub settled_trigger : Option BookingDeposit → Option FinancialDispute → ℕ → Result Bool
settled_trigger none dispute now = ok false
settled_trigger (some d) dispute now = elim d.dispute_window_ends_at [
  | none ↦ ok false
  | some ends ↦
      if is_undecided dispute || (not (leb ends now) && not (is_decided dispute))
      then ok false
      else if is_settled d
      then ok true
      else err deposit_not_settled
]

-- What the trigger demands of the deposit and the dispute: `ok false` is a quiet refusal.
unfoldable pub trigger_allows :
    CompletionTrigger → Option BookingDeposit → Option FinancialDispute → ℕ → Result Bool
unfolding settled_trigger
trigger_allows zero_deposit_return deposit dispute now =
    if is_some deposit || is_some dispute then err unexpected_deposit else ok true
trigger_allows dispute_window_closed none dispute now = ok false
trigger_allows dispute_window_closed (some d) dispute now =
    ok (is_due d.dispute_window_ends_at now && not (is_some dispute))
trigger_allows dispute_decided deposit dispute now = ok (is_some deposit && is_decided dispute)
trigger_allows deposit_settled deposit dispute now = settled_trigger deposit dispute now

abbrev pub completion_command : CompletionTrigger → String
completion_command zero_deposit_return = "COMPLETE_AFTER_RETURN"
completion_command dispute_window_closed = "COMPLETE_AFTER_DISPUTE_WINDOW"
completion_command dispute_decided = "COMPLETE_AFTER_DISPUTE_DECISION"
completion_command deposit_settled = "COMPLETE_AFTER_DEPOSIT_SETTLED"

abbrev pub completion_transition : String → CompletionTrigger → Transition
completion_transition k trigger = record {
  booking_id = k;
  actor_id = none;
  actor_type = "SYSTEM";
  command = completion_command trigger;
  old_status = some BookingStatus.returned;
  new_status = BookingStatus.completed;
  reason = none;
}

abbrev pub completed_row : Booking → Booking
completed_row b = record b { status = BookingStatus.completed }

abbrev pub is_returned_booking : String → Booking → Bool
is_returned_booking k b = b.id == k && booking_is BookingStatus.returned b.status

-- The booking and its history after the completion.
abbrev pub completed_rows : String → CompletionTrigger → Db → Db
completed_rows k trigger db = record db {
  bookings = update_many (is_returned_booking k) completed_row db.bookings;
  transitions = completion_transition k trigger ∷ db.transitions;
}

-- The writes of a completion.
unfoldable pub write_completion : String → CompletionTrigger → Db → Result Db
unfolding create_event
write_completion k trigger db =
    create_event (booking_event k "BOOKING_COMPLETED") (completed_rows k trigger db)

abbrev pub complete_if : Bool → String → CompletionTrigger → Db → Result (Db × ℕ)
complete_if false k trigger db = ok (db, 0)
complete_if true k trigger db = do db' ← write_completion k trigger db; ok (db', 1)

-- `completeBookingAfterReturnInTransaction`, with the number of bookings that it completed.
unfoldable pub complete_after_return : String → ℕ → CompletionTrigger → Db → Result (Db × ℕ)
unfolding trigger_allows write_completion
complete_after_return k now trigger db = elim (booking_by_id k db) [
  | none ↦ ok (db, 0)
  | some b ↦ if not (booking_is BookingStatus.returned b.status) then ok (db, 0) else (do
    allowed ← trigger_allows trigger (deposit_of k db) (dispute_of k db) now
    complete_if allowed k trigger db)
]
