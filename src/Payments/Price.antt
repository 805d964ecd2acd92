-- ===== src/Payments/Price.antt =====
-- backend/src/payments/safe-deal-price.ts and money-minor.ts: the price of a safe deal, and the
-- check on a division of the deposit. Amounts are kopecks; those that come in are `bigint`.
pub mod Laws
use sosedi_app.Prelude.{Bool, false, leb, not, suc, true, zero, ℕ, ◌*◌, ◌+◌, ◌-◌, ◌/◌, ◌||◌}
use sosedi_app.Prelude.Int.{eqb_ℤ, negsuc, pos, ℤ, ◌+ℤ◌}
use sosedi_app.Booking.Terms.{max_safe_integer}
use sosedi_app.Domain.Failure.{
  Result, err, ok, price_deposit_negative, resolution_leg_invalid, resolution_mismatch,
  subtotal_not_positive, throw_if, ◌>>=◌, ◌>>◌,
}

pub record SafeDealPrice : Type 0 where
  pub rental_subtotal_minor : ℕ
  pub deposit_minor : ℕ
  pub borrower_total_minor : ℕ
  pub platform_fee_minor : ℕ
  pub owner_payout_minor : ℕ

abbrev pub basis_points_denominator : ℕ
basis_points_denominator = 10000

abbrev pub half_basis_point_denominator : ℕ
half_basis_point_denominator = 5000

abbrev pub platform_fee_basis_points : ℕ
platform_fee_basis_points = 100

unfoldable pub platform_fee : ℕ → ℕ
platform_fee subtotal =
    (subtotal * platform_fee_basis_points + half_basis_point_denominator) / basis_points_denominator

-- `calculateProvisionalSafeDealPrice`
unfoldable pub calculate_price : ℤ → ℤ → Result SafeDealPrice
unfolding platform_fee
calculate_price (negsuc _) deposit = err subtotal_not_positive
calculate_price (pos zero) deposit = err subtotal_not_positive
calculate_price (pos (suc n)) (negsuc _) = err price_deposit_negative
calculate_price (pos (suc n)) (pos deposit) = ok (record {
  rental_subtotal_minor = suc n;
  deposit_minor = deposit;
  borrower_total_minor = suc n + deposit;
  platform_fee_minor = platform_fee (suc n);
  owner_payout_minor = suc n - platform_fee (suc n);
})

abbrev is_negative : ℤ → Bool
is_negative (pos n) = false
is_negative (negsuc n) = true

-- `assertResolutionTotal`
unfoldable pub assert_resolution_total : ℤ → ℤ → ℤ → Result (Unit {0})
unfolding ◌+ℤ◌
assert_resolution_total deposit refunded released = do
  throw_if (is_negative deposit || is_negative refunded || is_negative released)
      resolution_leg_invalid
  throw_if (not (eqb_ℤ (refunded +ℤ released) deposit)) resolution_mismatch

-- `minorToSafeNumber`: the bounds of a safe integer.
abbrev pub is_safe : ℕ → Bool
is_safe n = leb n max_safe_integer
