-- ===== src/Payments/Price/Laws.antt =====
-- The prices of backend/src/payments/safe-deal-price.ts and the check of money-minor.ts.
use sosedi_app.Prelude.{
  arith, false, inl, inr, refl, suc, true, zero, ℕ, ◌*◌, ◌+◌, ◌-◌, ◌<◌, ◌↔◌, ◌≡◌, ◌≤◌, ◌⊎◌,
}
use sosedi_app.Prelude.Int.{leb_ℤ, negsuc, pos, ℤ}
use sosedi_app.Domain.Failure.{err, ok, price_deposit_negative, subtotal_not_positive}
use sosedi_app.Payments.Price.{
  SafeDealPrice, assert_resolution_total, calculate_price, platform_fee,
}

-- The fee is one percent, rounded to the nearest kopeck, a half up.
pub platform_fee_nearest :
    (n : ℕ)
    → (platform_fee n * 10000 ≤ n * 100 + 5000) × (n * 100 + 5000 < (platform_fee n + 1) * 10000)
unfolding platform_fee
platform_fee_nearest n = (omega arith, omega arith)

pub platform_fee_bounded : (n : ℕ) → platform_fee (suc n) ≤ suc n
unfolding platform_fee
platform_fee_bounded n = omega arith

-- What a price that is computed satisfies.
pub record IsPriced (subtotal deposit : ℤ) (p : SafeDealPrice) : Type 0 where
  pub subtotal_kept : subtotal ≡ pos p.rental_subtotal_minor
  pub deposit_kept : deposit ≡ pos p.deposit_minor
  pub positive : 1 ≤ p.rental_subtotal_minor
  pub total : p.borrower_total_minor ≡ p.rental_subtotal_minor + p.deposit_minor
  pub divided : p.owner_payout_minor + p.platform_fee_minor ≡ p.rental_subtotal_minor
  pub fee_below : p.platform_fee_minor * 10000 ≤ p.rental_subtotal_minor * 100 + 5000
  pub fee_above : p.rental_subtotal_minor * 100 + 5000 < (p.platform_fee_minor + 1) * 10000

price_of :
    (n d : ℕ)
    → IsPriced (pos (suc n)) (pos d) (record {
      rental_subtotal_minor = suc n;
      deposit_minor = d;
      borrower_total_minor = suc n + d;
      platform_fee_minor = platform_fee (suc n);
      owner_payout_minor = suc n - platform_fee (suc n);
    })
price_of n d = record {
  subtotal_kept = refl;
  deposit_kept = refl;
  positive = omega arith;
  total = refl;
  divided = rest (suc n) (platform_fee (suc n)) (platform_fee_bounded n);
  fee_below = (platform_fee_nearest (suc n)).0;
  fee_above = (platform_fee_nearest (suc n)).1;
}
  where
    rest : (a b : ℕ) → b ≤ a → (a - b) + b ≡ a
    rest a b h = omega arith

-- A price is computed for a positive subtotal and a deposit that is not negative, and for no other
-- amounts. The borrower then pays the subtotal and the deposit, the owner's payout and the
-- platform's fee divide the subtotal without a remainder, and the fee is one percent of it, rounded
-- to the nearest kopeck with a half up.
pub calculate_price-IsPriced :
    (subtotal deposit : ℤ)
    → ((p : SafeDealPrice) × (calculate_price subtotal deposit ≡ ok p)
        × IsPriced subtotal deposit p)
      ⊎ ((leb_ℤ subtotal (pos 0) ≡ true)
          × (calculate_price subtotal deposit ≡ err subtotal_not_positive))
      ⊎ ((leb_ℤ (pos 0) deposit ≡ false)
          × (calculate_price subtotal deposit ≡ err price_deposit_negative))
unfolding calculate_price
calculate_price-IsPriced (negsuc n) deposit = inr (inl (ground arith, refl))
calculate_price-IsPriced (pos zero) deposit = inr (inl (refl, refl))
calculate_price-IsPriced (pos (suc n)) (negsuc d) = inr (inr (ground arith, refl))
calculate_price-IsPriced (pos (suc n)) (pos d) = inl (_, refl, price_of n d)

-- The division of a deposit passes the check if, and only if, both legs are amounts that are not
-- negative, and they add up to the deposit.
pub assert_resolution_total_lem :
    (deposit refunded released : ℤ)
    → (assert_resolution_total deposit refunded released ≡ ok tt) ↔ (
        (d : ℕ) × (a : ℕ) × (b : ℕ) × (deposit ≡ pos d)
        × (refunded ≡ pos a)
        × (released ≡ pos b)
        × (a + b ≡ d))
unfolding assert_resolution_total
assert_resolution_total_lem deposit refunded released =
    (passes deposit refunded released, λ (d, a, b, e, f, g, s). rw (e, f, g) (sums a b d s))
  where
    sums : (a b d : ℕ) → a + b ≡ d → assert_resolution_total (pos d) (pos a) (pos b) ≡ ok tt
    sums a b d s = ground arith

    passes :
        (deposit refunded released : ℤ)
        → assert_resolution_total deposit refunded released ≡ ok tt
        → (d : ℕ) × (a : ℕ) × (b : ℕ) × (deposit ≡ pos d)
          × (refunded ≡ pos a)
          × (released ≡ pos b)
          × (a + b ≡ d)
    passes (pos d) (pos a) (pos b) h = (d, a, b, refl, refl, refl, ground arith)
    passes (negsuc d) refunded released h = cc
    passes (pos d) (negsuc a) released h = cc
    passes (pos d) (pos a) (negsuc b) h = cc
