-- ===== src/Payments/Checkout.antt =====
-- `DepositService.checkout` of backend/src/payments/deposit.service.ts: the borrower pays for a
-- confirmed booking, and its deposit is held. The provider keeps what it did also where the
-- transaction fails.
use Prim.Native.String.{◌++◌}
use sosedi_app.Prelude.{Option, String, eqb, false, ltb, none, not, some, ℕ, ◌&&◌, ◌==◌, ◌||◌, ◌∷◌}
use sosedi_app.Booking.Deal.{bound_terms}
use sosedi_app.Booking.Terms.{Snapshot, is_offline}
use sosedi_app.Domain.{
  Booking, BookingDeposit, Db, DepositOperation, Payment, booking_by_id, deposit_of, payment_of,
}
use sosedi_app.Domain.Failure.{
  Result, booking_not_found, deposit_snapshot_conflict, deposit_state_conflict, err,
  hold_not_succeeded, idempotency_key_missing, invalid_booking_transition, invalid_payment_terms,
  ok, or_throw, payment_state_conflict, throw_if, unexpected_deposit, ◌>>=◌, ◌>>◌,
}
use sosedi_app.Domain.Status.{
  BookingStatus, DepositStatus, OperationKind, OperationStatus, PaymentStatus, booking_is,
  deposit_is, payment_succeeded,
}
use sosedi_app.Payments.Operations.{add_operation, set_deposit}
use sosedi_app.Payments.Policy.{MarketplacePolicy, require_fake_safe_deal}
use sosedi_app.Payments.Provider.{
  FakeOutcome, Provider, ProviderRequest, ProviderResult, checkout_request, execute,
  operation_request, provider_declined, provider_succeeded, provider_timeout,
}
use sosedi_app.Text.{has_text, is_empty}

pub record CheckoutContext : Type 0 where
  pub policy : MarketplacePolicy
  pub borrower_id : String
  pub booking_id : String
  pub outcome : FakeOutcome
  pub idempotency_key : String
  pub now : ℕ
  pub operation_id : String

abbrev pub hold_key : String → String
hold_key deposit = "deposit:" ++ deposit ++ ":hold"

-- The checks before the provider is called: the booking and its terms.
unfoldable pub checkout_terms : CheckoutContext → Db → Result (Booking × Snapshot)
unfolding require_fake_safe_deal bound_terms
checkout_terms c db = do
  require_fake_safe_deal c.policy
  throw_if (not (has_text c.idempotency_key)) idempotency_key_missing
  b ← or_throw (booking_by_id c.booking_id db) booking_not_found
  throw_if (not (b.borrower_id == c.borrower_id)) booking_not_found
  throw_if (not (booking_is BookingStatus.confirmed b.status)) invalid_booking_transition
  s ← or_throw (bound_terms b) invalid_payment_terms
  throw_if (is_offline s.payment_scenario) invalid_payment_terms
  ok (b, s)

-- The replay of a payment that was made.
abbrev pub replay_payment :
    CheckoutContext → Payment → Option BookingDeposit → ℕ → Result ProviderResult
replay_payment c p deposit amount = do
  throw_if
      (not (p.user_id == c.borrower_id)
        || not (payment_succeeded p.status)
        || not (eqb p.amount amount))
      payment_state_conflict
  provider_id ← or_throw p.yookassa_payment_id payment_state_conflict
  throw_if (is_empty provider_id) payment_state_conflict
  throw_if (elim deposit [ none ↦ false | some d ↦ not (deposit_is DepositStatus.held d.status) ])
      deposit_state_conflict
  ok (provider_succeeded provider_id)

-- The deposit is as the terms say: pending with their amount, or absent.
abbrev pub deposit_matches : Snapshot → Option BookingDeposit → Result (Unit {0})
deposit_matches s none = throw_if (ltb 0 s.money_minor.deposit) deposit_snapshot_conflict
deposit_matches s (some d) = do
  throw_if
      (ltb 0 s.money_minor.deposit
        && (not (deposit_is DepositStatus.pending d.status)
            || not (eqb d.amount s.money_minor.deposit)))
      deposit_snapshot_conflict
  throw_if (eqb s.money_minor.deposit 0) unexpected_deposit

abbrev pub hold_request : BookingDeposit → ℕ → ProviderRequest
hold_request d amount =
    operation_request (hold_key d.id) d.id OperationKind.hold amount FakeOutcome.success

abbrev pub payment_row : CheckoutContext → ℕ → String → Payment
payment_row c amount provider_id = record {
  booking_id = c.booking_id;
  user_id = c.borrower_id;
  amount = amount;
  status = PaymentStatus.succeeded;
  yookassa_payment_id = some provider_id;
}

abbrev pub hold_operation : CheckoutContext → BookingDeposit → ℕ → String → DepositOperation
hold_operation c d amount provider_id = record {
  id = c.operation_id;
  deposit_id = d.id;
  kind = OperationKind.hold;
  amount = amount;
  status = OperationStatus.succeeded;
  idempotency_key = hold_key d.id;
  provider_operation_id = some provider_id;
  retry_of_id = none;
  provider_error_code = none;
  attempts = 1;
  next_attempt_at = c.now;
  processing_until = none;
  completed_at = some c.now;
}

-- The payment, and the hold of the deposit.
unfoldable pub write_checkout :
    CheckoutContext → ℕ → String → Option (BookingDeposit × String) → ℕ → Db → Result Db
unfolding add_operation
write_checkout c amount payment_id none deposit_amount db =
    ok (record db { payments = payment_row c amount payment_id ∷ db.payments })
write_checkout c amount payment_id (some (d, hold_id)) deposit_amount db = do
  operations ← add_operation (hold_operation c d deposit_amount hold_id) db.operations
  ok (record db {
    payments = payment_row c amount payment_id ∷ db.payments;
    deposits = set_deposit d.id DepositStatus.held db.deposits;
    operations = operations;
  })

abbrev pub hold_id_of : ProviderResult → Result String
hold_id_of (provider_succeeded k) = ok k
hold_id_of _ = err hold_not_succeeded

-- What follows the hold of the deposit: the writes, where it succeeded.
abbrev pub write_held :
    CheckoutContext
    → Snapshot
    → BookingDeposit
    → String
    → ProviderResult
    → Db
    → Result (Db × ProviderResult)
write_held c s d payment_id held db = do
  hold_id ← hold_id_of held
  db' ← write_checkout c s.money_minor.total payment_id (some (d, hold_id)) s.money_minor.deposit db
  ok (db', provider_succeeded payment_id)

-- The provider's new state comes out in every case.
abbrev pub after_hold :
    CheckoutContext
    → Snapshot
    → BookingDeposit
    → String
    → Provider
    → Db
    → Result (Provider × ProviderResult)
    → Provider × Result (Db × ProviderResult)
after_hold c s d payment_id provider db (err e) = (provider, err e)
after_hold c s d payment_id provider db (ok (provider', held)) =
    (provider', write_held c s d payment_id held db)

module _ (digest : String → String) where
  -- The hold of the deposit at the provider, and the writes.
  unfoldable pub hold_and_write :
      CheckoutContext
      → Snapshot
      → Option BookingDeposit
      → String
      → Provider
      → Db
      → Provider × Result (Db × ProviderResult)
  unfolding execute write_checkout
  hold_and_write c s none payment_id provider db = (
    provider,
    do
      db' ← write_checkout c s.money_minor.total payment_id none 0 db
      ok (db', provider_succeeded payment_id),
  )
  hold_and_write c s (some d) payment_id provider db =
      after_hold c s d payment_id provider db
        (execute digest (hold_request d s.money_minor.deposit) provider)

  -- The first payment of a booking, once its deposit is found to be as the terms say.
  abbrev pub after_match :
      CheckoutContext
      → Snapshot
      → String
      → Provider
      → Db
      → Result (Unit {0})
      → Provider × Result (Db × ProviderResult)
  after_match c s payment_id provider db (err e) = (provider, err e)
  after_match c s payment_id provider db (ok _) =
      hold_and_write c s (deposit_of c.booking_id db) payment_id provider db

  -- What follows a successful payment at the provider.
  unfoldable pub record_payment :
      CheckoutContext → Snapshot → String → Provider → Db → Provider × Result (Db × ProviderResult)
  unfolding hold_and_write
  record_payment c s payment_id provider db = elim (payment_of c.booking_id db) [
    | some p ↦ (
      provider,
      do r ← replay_payment c p (deposit_of c.booking_id db) s.money_minor.total; ok (db, r),
    )
    | none ↦ after_match c s payment_id provider db (deposit_matches s (deposit_of c.booking_id db))
  ]

  abbrev pub after_answer :
      CheckoutContext
      → Snapshot
      → Provider
      → Db
      → ProviderResult
      → Provider × Result (Db × ProviderResult)
  after_answer c s provider db (provider_succeeded payment_id) =
      record_payment c s payment_id provider db
  after_answer c s provider db (provider_declined code) =
      (provider, ok (db, provider_declined code))
  after_answer c s provider db provider_timeout = (provider, ok (db, provider_timeout))

  abbrev pub after_payment :
      CheckoutContext
      → Snapshot
      → Provider
      → Db
      → Result (Provider × ProviderResult)
      → Provider × Result (Db × ProviderResult)
  after_payment c s provider db (err e) = (provider, err e)
  after_payment c s provider db (ok (provider', r)) = after_answer c s provider' db r

  abbrev pub pay :
      CheckoutContext
      → Provider
      → Db
      → Result (Booking × Snapshot)
      → Provider × Result (Db × ProviderResult)
  pay c provider db (err e) = (provider, err e)
  pay c provider db (ok (b, s)) = after_payment c s provider db (
      execute digest (checkout_request c.idempotency_key c.booking_id s.money_minor.total c.outcome)
        provider)

  -- `DepositService.checkout`
  unfoldable pub checkout :
      CheckoutContext → Provider → Db → Provider × Result (Db × ProviderResult)
  unfolding checkout_terms execute record_payment
  checkout c provider db = pay c provider db (checkout_terms c db)
