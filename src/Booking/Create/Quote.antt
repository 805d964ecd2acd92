-- ===== src/Booking/Create/Quote.antt =====
-- The price and the terms that `BookingService.create` of backend/src/booking/booking.service.ts
-- offers for an item and a period.
use Prim.Native.String.{◌++◌}
use sosedi_app.Prelude.{Bool, Option, String, if◌then◌else◌, ltb, none, not, some, ℕ, ◌&&◌, ◌*◌}
use sosedi_app.Prelude.Int.{pos, ℤ}
use sosedi_app.Booking.Create.Gate.{CreateContext}
use sosedi_app.Booking.Period.{BookingPeriod}
use sosedi_app.Booking.Terms.{DepositTerms, MoneyMinor, Scenario, Snapshot}
use sosedi_app.Domain.{Item}
use sosedi_app.Domain.Failure.{Result, ok, throw_if, unsafe_amount, ◌>>=◌, ◌>>◌}
use sosedi_app.Payments.Policy.{MarketplacePolicy, PaymentScenario, is_fake_safe_deal}
use sosedi_app.Payments.Price.{SafeDealPrice, calculate_price, is_safe}

pub record Offer : Type 0 where
  pub price : SafeDealPrice
  pub snapshot : Snapshot

abbrev pub deposit_of_item : Item → ℕ
deposit_of_item item = elim item.deposit_amount [ none ↦ 0 | some d ↦ d ]

-- `Decimal.toNumber` of an amount in kopecks, as a JSON number of roubles.
abbrev pub roubles : ℕ → ℤ
roubles minor = pos (minor * 1000000)

-- The price under the scenario in force.
unfoldable pub price_of : PaymentScenario → ℕ → ℕ → Result SafeDealPrice
unfolding calculate_price
price_of PaymentScenario.fake_safe_deal subtotal deposit =
    calculate_price (pos subtotal) (pos deposit)
price_of _ subtotal deposit = ok (record {
  rental_subtotal_minor = subtotal;
  deposit_minor = deposit;
  borrower_total_minor = subtotal;
  platform_fee_minor = 0;
  owner_payout_minor = subtotal;
})

-- `depositTerms`
unfoldable pub deposit_terms_of : MarketplacePolicy → ℕ → Option DepositTerms
deposit_terms_of policy deposit =
    if is_fake_safe_deal policy.payment_scenario && ltb 0 deposit
    then elim policy.deposit_policy [
      | none ↦ none
      | some d ↦ some (record {
        policy_version = d.policy_version;
        dispute_window_seconds = d.dispute_window_seconds;
      })
    ]
    else none

abbrev scenario_of : PaymentScenario → Scenario
scenario_of PaymentScenario.fake_safe_deal = Scenario.fake_safe_deal
scenario_of _ = Scenario.pay_on_handover

abbrev listing_version_of : Item → String
listing_version_of item =
    elim item.listing_rules_version [ none ↦ "legacy" | some v ↦ v ] ++ ":" ++ item.updated_at

-- `snapshot`
unfoldable pub snapshot_of : CreateContext → Item → BookingPeriod → SafeDealPrice → Snapshot
unfolding deposit_terms_of
snapshot_of c item period price = record {
  item_title = item.title;
  lender_id = item.owner_id;
  lender_display_name = item.owner_name;
  price_per_day = roubles item.price_per_day;
  days = period.days;
  rental_subtotal = roubles price.rental_subtotal_minor;
  deposit_amount = elim item.deposit_amount [ none ↦ none | some d ↦ some (roubles d) ];
  platform_fee = roubles price.platform_fee_minor;
  owner_payout = roubles price.owner_payout_minor;
  total = roubles price.borrower_total_minor;
  payment_scenario = scenario_of c.policy.payment_scenario;
  money_minor = record {
    price_per_day = item.price_per_day;
    rental_subtotal = price.rental_subtotal_minor;
    deposit = deposit_of_item item;
    platform_fee = price.platform_fee_minor;
    owner_payout = price.owner_payout_minor;
    total = price.borrower_total_minor;
  };
  deposit_terms = deposit_terms_of c.policy (deposit_of_item item);
  handover = record {
    area = item.public_area;
    address = item.address;
    latitude = item.latitude;
    longitude = item.longitude;
  };
  listing_version = listing_version_of item;
  offer_version = some c.dto.offer_version;
  cancellation_policy_version = some c.dto.cancellation_policy_version;
  acceptance = some (record {
    actor_id = c.borrower_id;
    accepted_at = c.now_text;
    offer_version = c.dto.offer_version;
    cancellation_policy_version = c.dto.cancellation_policy_version;
  });
}

-- `minorToSafeNumber` on each amount of `moneyMinor`
abbrev all_safe : MoneyMinor → Bool
all_safe m =
    is_safe m.price_per_day
    && is_safe m.rental_subtotal
    && is_safe m.deposit
    && is_safe m.platform_fee
    && is_safe m.owner_payout
    && is_safe m.total

-- The offer, refused where an amount does not fit a safe number.
unfoldable pub make_offer : CreateContext → Item → BookingPeriod → Result Offer
unfolding price_of snapshot_of
make_offer c item period = do
  price ←
      price_of c.policy.payment_scenario (item.price_per_day * period.days) (deposit_of_item item)
  throw_if (not (all_safe (snapshot_of c item period price).money_minor)) unsafe_amount
  ok (record { price = price; snapshot = snapshot_of c item period price })
