-- ===== src/Tests/Payments.antt =====
-- A disputed deposit, its division, and the provider's answers.
use sosedi_app.Prelude.{
  Pairwise, String, [], ap, arith, eq_iff, false, map, none, refl, some, true, ℕ, ◌+◌, ◌<◌, ◌↔◌,
  ◌∷◌, ◌≡◌, ◌≢◌, ◌≤◌, ◌⊎◌,
}
use sosedi_app.Prelude.Int.{leb_ℤ, pos}
use sosedi_app.Domain.{
  Booking, Db, DepositOperation, booking_by_id, booking_event, deposit_of, dispute_of,
}
use sosedi_app.Domain.Failure.{
  commit, err, ok, price_deposit_negative, provider_key_reused, subtotal_not_positive,
}
use sosedi_app.Domain.Status.{BookingStatus, DepositStatus, OperationKind}
use sosedi_app.Payments.Completion.{complete_after_return, completed_row, zero_deposit_return}
use sosedi_app.Payments.Completion.Safety.{Justified, complete-Justified}
use sosedi_app.Payments.Deadline.{process_deadline}
use sosedi_app.Payments.Deadline.Once.{process_deadline_once}
use sosedi_app.Payments.DepositState.{assert_deposit_transition}
use sosedi_app.Payments.DepositState.Laws.{assert_deposit_transition_forward, progress}
use sosedi_app.Payments.Dispute.{resolve_dispute}
use sosedi_app.Payments.Dispute.Laws.{Decides, resolve_dispute-Decides}
use sosedi_app.Payments.Operations.{pending_operation}
use sosedi_app.Payments.Price.{
  SafeDealPrice, assert_resolution_total, calculate_price, platform_fee,
}
use sosedi_app.Payments.Price.Laws.{IsPriced, assert_resolution_total_lem, calculate_price-IsPriced}
use sosedi_app.Payments.Processor.{apply_outcome, claim, retry_delay}
use sosedi_app.Payments.Processor.Laws.{claim_exclusive, retry_delay_bounded}
use sosedi_app.Payments.Processor.Once.{apply_outcome_once}
use sosedi_app.Payments.Provider.{
  FakeOutcome, Provider, ProviderRequest, checkout_request, execute, provider_succeeded,
  request_amount,
}
use sosedi_app.Payments.Provider.Laws.{execute_replay, execute_reuse}
use sosedi_app.Tests.Data.{
  claimed, decided, decided_case, decision, disputed_db, disputed_deposit, empty_db, free_return,
  minute, refunded, returned_booking, same_text,
}
use sosedi_app.Text.{has_text, is_space}

calculate_price-IsPriced_example :
    ((p : SafeDealPrice) × (calculate_price (pos 150000) (pos 200000) ≡ ok p)
      × IsPriced (pos 150000) (pos 200000) p)
    ⊎ ((leb_ℤ (pos 150000) (pos 0) ≡ true)
        × (calculate_price (pos 150000) (pos 200000) ≡ err subtotal_not_positive))
    ⊎ ((leb_ℤ (pos 0) (pos 200000) ≡ false)
        × (calculate_price (pos 150000) (pos 200000) ≡ err price_deposit_negative))
calculate_price-IsPriced_example = calculate_price-IsPriced (pos 150000) (pos 200000)

-- Half a kopeck of the fee is rounded up.
fee_of_150 : platform_fee 150 ≡ 2
unfolding platform_fee
fee_of_150 = refl

assert_resolution_total_lem_example : (assert_resolution_total (pos 5) (pos 2) (pos 3) ≡ ok tt) ↔ (
    (d : ℕ) × (a : ℕ) × (b : ℕ) × (pos 5 ≡ pos d) × (pos 2 ≡ pos a) × (pos 3 ≡ pos b) × (a + b ≡ d))
assert_resolution_total_lem_example = assert_resolution_total_lem (pos 5) (pos 2) (pos 3)

allows_resolving : assert_deposit_transition DepositStatus.held DepositStatus.resolving ≡ ok tt
unfolding assert_deposit_transition
allows_resolving = refl

assert_deposit_transition_forward_example :
    progress DepositStatus.held < progress DepositStatus.resolving
assert_deposit_transition_forward_example =
    assert_deposit_transition_forward DepositStatus.held DepositStatus.resolving allows_resolving

one_to_three : 1 ≤ 3
one_to_three = omega arith

retry_delay_bounded_example :
    (30000 ≤ retry_delay 1) × (retry_delay 1 ≤ retry_delay 3) × (retry_delay 3 ≤ 3600000)
retry_delay_bounded_example = retry_delay_bounded 1 3 one_to_three

abbrev call : ProviderRequest
call = checkout_request "k" "b1" 350000 FakeOutcome.success

abbrev other_call : ProviderRequest
other_call = checkout_request "k" "b1" 1 FakeOutcome.success

abbrev after_call : Provider
after_call =
    record { key = "k"; request = call; result = provider_succeeded "fake_checkout_checkout:k" }
    ∷ []

pays : execute same_text call [] ≡ ok (after_call, provider_succeeded "fake_checkout_checkout:k")
unfolding execute has_text is_space
pays = refl

execute_replay_example :
    execute same_text call after_call
    ≡ ok (after_call, provider_succeeded "fake_checkout_checkout:k")
execute_replay_example =
    execute_replay same_text call [] after_call (provider_succeeded "fake_checkout_checkout:k") pays

calls_differ : other_call ≢ call
calls_differ e = one_not_more (ap request_amount e)
  where
    one_not_more : ◌≡◌ {A = ℕ} 1 350000 → ⊥
    one_not_more h = omega arith

execute_reuse_example : execute same_text other_call after_call ≡ err provider_key_reused
unfolding has_text is_space
execute_reuse_example =
    execute_reuse same_text call other_call [] after_call
      (provider_succeeded "fake_checkout_checkout:k") pays refl calls_differ refl

decides : resolve_dispute decision disputed_db ≡ ok (decided, decided_case)
unfolding resolve_dispute booking_event
decides = refl

resolve_dispute-Decides_example : Decides decision disputed_db decided decided_case
resolve_dispute-Decides_example =
    resolve_dispute-Decides decision disputed_db decided decided_case decides

-- A call by the deadline's job completes a return without a deposit.
abbrev completed : Db
completed = commit free_return (complete_after_return "b1" minute zero_deposit_return free_return)

completes_return :
    complete_after_return "b1" minute zero_deposit_return free_return ≡ ok (completed, 1)
unfolding complete_after_return booking_event
completes_return = refl

complete-Justified_example :
    (b : Booking) × (booking_by_id "b1" free_return ≡ some b)
    × (b.status ≡ BookingStatus.returned)
    × (booking_by_id "b1" completed ≡ some (completed_row b))
    × Justified zero_deposit_return
        (deposit_of "b1" free_return)
        (dispute_of "b1" free_return)
        minute
complete-Justified_example =
    complete-Justified "b1" minute zero_deposit_return free_return completed completes_return

abbrev claimed_operation : DepositOperation
claimed_operation =
    record (pending_operation "o1" "d1" OperationKind.refund 120000 "dispute:f1:resolve:key:refund"
      none minute) { processing_until = some 120000; attempts = 1 }

claims_refund : claim "o1" minute decided ≡ some (claimed, claimed_operation)
unfolding resolve_dispute booking_event claim
claims_refund = refl

operations_apart : Pairwise (λ p q. p.id ≢ q.id) decided.operations
unfolding resolve_dispute booking_event
operations_apart = ((λ e. differ e, tt), (tt, tt))
  where
    differ : ◌≡◌ {A = String} "o2" "o1" → ⊥
    differ e = ground (arith, eq_iff "o2" "o1")

early : 100000 < minute + 60000
early = omega arith

claim_exclusive_example : claim "o1" 100000 claimed ≡ none
claim_exclusive_example =
    claim_exclusive "o1" minute 100000 decided claimed claimed_operation operations_apart
      claims_refund early

applies_refund :
    apply_outcome "o1" "b1" 1 120000 (provider_succeeded "p1") 70000 claimed ≡ ok refunded
unfolding resolve_dispute booking_event claim apply_outcome
applies_refund = refl

apply_outcome_once_example :
    apply_outcome "o1" "b1" 1 120000 (provider_succeeded "p1") 80000 refunded ≡ ok refunded
apply_outcome_once_example =
    apply_outcome_once "o1" "b1" 1 120000 (provider_succeeded "p1") 70000 80000 claimed refunded
      applies_refund

refund_counted : map (λ d. d.refunded_amount) refunded.deposits ≡ 120000 ∷ []
unfolding resolve_dispute booking_event claim apply_outcome
refund_counted = refl

-- A held deposit whose window is over.
abbrev due : Db
due = record empty_db {
  bookings = returned_booking ∷ [];
  deposits = record disputed_deposit { status = DepositStatus.held } ∷ [];
}

abbrev scheduled : Db
scheduled = commit due (process_deadline minute "d1" "o1" due)

schedules_refund : process_deadline minute "d1" "o1" due ≡ ok (scheduled, 1)
unfolding process_deadline booking_event
schedules_refund = refl

process_deadline_once_example : process_deadline 90000 "d1" "o3" scheduled ≡ ok (scheduled, 0)
process_deadline_once_example =
    process_deadline_once minute 90000 "d1" "o1" "o3" due scheduled schedules_refund
