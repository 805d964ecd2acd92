-- ===== src/Payments/DepositState/Laws.antt =====
-- The order of a deposit's states.
use sosedi_app.Prelude.{arith, ℕ, ◌<◌, ◌≡◌}
use sosedi_app.Domain.Failure.{ok}
use sosedi_app.Domain.Status.{DepositStatus}
use sosedi_app.Payments.DepositState.{allowed_transitions, assert_deposit_transition}

-- How far a deposit is.
abbrev pub progress : DepositStatus → ℕ
progress DepositStatus.pending = 0
progress DepositStatus.held = 1
progress DepositStatus.disputed = 2
progress DepositStatus.resolving = 3
progress DepositStatus.resolved = 4
progress DepositStatus.cancelled = 4

-- A deposit never goes back: a transition that the check lets through brings it further, so none
-- leads out of RESOLVED or CANCELLED, and no state is entered twice.
pub assert_deposit_transition_forward :
    (current next : DepositStatus)
    → assert_deposit_transition current next ≡ ok tt
    → progress current < progress next
unfolding assert_deposit_transition allowed_transitions
assert_deposit_transition_forward current next h = ground arith
