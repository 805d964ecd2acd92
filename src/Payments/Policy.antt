-- ===== src/Payments/Policy.antt =====
-- backend/src/payments/payment-policy.service.ts: the policy in force. Reading it from the
-- environment (`parse`) is not modelled; `deposit_policy` is present as `parse` makes it, with the
-- FAKE_SAFE_DEAL scenario.
use sosedi_app.Prelude.{Bool, Option, String, false, none, not, some, true, ℕ, ◌&&◌}
use sosedi_app.Prelude.Int.{eqb_ℤ, leb_ℤ, negsuc, pos, ℤ}
use sosedi_app.Domain.Failure.{
  Result, deposit_above_maximum, deposit_requires_safe_deal, fake_safe_deal_required,
  negative_deposit, throw_if, ◌>>◌,
}

pub data PaymentScenario : Type 0 where
  pay_on_handover fake_safe_deal safe_deal : PaymentScenario

pub record DepositPolicy : Type 0 where
  pub maximum_minor : ℕ
  pub policy_version : String
  pub dispute_window_seconds : ℕ

pub record MarketplacePolicy : Type 0 where
  pub payment_scenario : PaymentScenario
  pub deposit_policy : Option DepositPolicy

abbrev pub is_fake_safe_deal : PaymentScenario → Bool
is_fake_safe_deal PaymentScenario.fake_safe_deal = true
is_fake_safe_deal _ = false

abbrev pub is_pay_on_handover : PaymentScenario → Bool
is_pay_on_handover PaymentScenario.pay_on_handover = true
is_pay_on_handover _ = false

-- `requireFakeSafeDeal`
unfoldable pub require_fake_safe_deal : MarketplacePolicy → Result (Unit {0})
require_fake_safe_deal policy =
    throw_if (not (is_fake_safe_deal policy.payment_scenario)) fake_safe_deal_required

-- `maximumMinor ?? 0`
abbrev pub maximum_deposit : MarketplacePolicy → ℕ
maximum_deposit policy = elim policy.deposit_policy [ none ↦ 0 | some d ↦ d.maximum_minor ]

abbrev is_negative : ℤ → Bool
is_negative (pos n) = false
is_negative (negsuc n) = true

-- `assertDepositAllowed`
unfoldable pub assert_deposit_allowed : MarketplacePolicy → ℤ → Result (Unit {0})
assert_deposit_allowed policy amount = do
  throw_if (is_negative amount) negative_deposit
  throw_if (is_pay_on_handover policy.payment_scenario && not (eqb_ℤ amount (pos 0)))
      deposit_requires_safe_deal
  throw_if
      (is_fake_safe_deal policy.payment_scenario
        && not (leb_ℤ amount (pos (maximum_deposit policy))))
      deposit_above_maximum
