-- ===== src/Payments/DepositState.antt =====
-- backend/src/payments/deposit-state.ts: the transitions that a deposit may make.
pub mod Laws
use sosedi_app.Prelude.{List, [], any, not, ◌∷◌}
use sosedi_app.Domain.Failure.{Result, invalid_deposit_transition, throw_if}
use sosedi_app.Domain.Status.{DepositStatus, deposit_is}

-- `ALLOWED_TRANSITIONS`
unfoldable pub allowed_transitions : DepositStatus → List DepositStatus
allowed_transitions DepositStatus.pending = DepositStatus.held ∷ DepositStatus.cancelled ∷ []
allowed_transitions DepositStatus.held = DepositStatus.disputed ∷ DepositStatus.resolving ∷ []
allowed_transitions DepositStatus.disputed = DepositStatus.resolving ∷ []
allowed_transitions DepositStatus.resolving = DepositStatus.resolved ∷ []
allowed_transitions DepositStatus.resolved = []
allowed_transitions DepositStatus.cancelled = []

-- `assertDepositTransition`
unfoldable pub assert_deposit_transition : DepositStatus → DepositStatus → Result (Unit {0})
unfolding allowed_transitions
assert_deposit_transition current next =
    throw_if (not (any (deposit_is next) (allowed_transitions current))) invalid_deposit_transition
