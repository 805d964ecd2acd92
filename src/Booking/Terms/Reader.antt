-- ===== src/Booking/Terms/Reader.antt =====
-- `readBookingTermsSnapshot` and `readBoundBookingTermsSnapshot` of
-- backend/src/booking/booking-terms.ts.
use sosedi_app.Prelude.{
  ℕ, ◌+◌, ◌*◌, String, Bool, true, not, ◌&&◌, ◌||◌, Option, none, some, leb, ltb, eqb, ◌==◌,
  if◌then◌else◌, is_some,
}
use sosedi_app.Prelude.Int.{ℤ, pos, eqb_ℤ}
use sosedi_app.Json.{Json, null, num, str, obj, Fields, get}
use sosedi_app.Text.{is_iso_timestamp, ◌>>=◌}
use sosedi_app.Booking.Terms.{
  Scenario, pay_on_handover, fake_safe_deal, MoneyMinor, DepositTerms, Handover, Acceptance,
  Snapshot, max_safe_integer, guard, ◌>>◌, json_record, non_empty_string, nullable_string,
  nullable_version, coordinate, safe_minor, minor_units, positive_safe_integer, day_count,
  is_offline,
}

pub read_money_minor : Fields → Option MoneyMinor
read_money_minor v = do
  price ← safe_minor (get "pricePerDay" v)
  subtotal ← safe_minor (get "rentalSubtotal" v)
  deposit ← safe_minor (get "deposit" v)
  fee ← safe_minor (get "platformFee" v)
  payout ← safe_minor (get "ownerPayout" v)
  total ← safe_minor (get "total" v)
  some (record {
    price_per_day = price;
    rental_subtotal = subtotal;
    deposit = deposit;
    platform_fee = fee;
    owner_payout = payout;
    total = total;
  })

-- `readDepositTerms`: the outer `none` is `undefined`.
pub read_deposit_terms : Option Json → Option (Option DepositTerms)
read_deposit_terms (some null) = some none
read_deposit_terms (some (obj v)) = do
  version ← non_empty_string (get "policyVersion" v)
  window ← positive_safe_integer (get "disputeWindowSeconds" v)
  some (some (record { policy_version = version; dispute_window_seconds = window }))
read_deposit_terms _ = none

-- `validAcceptance` with two versions: the acceptance that the record holds.
read_acceptance : Fields → String → String → Option Acceptance
read_acceptance v offer policy = do
  actor ← non_empty_string (get "actorId" v)
  at ← non_empty_string (get "acceptedAt" v)
  guard (is_iso_timestamp at)
  method ← non_empty_string (get "method" v)
  guard (method == "BOOKING_SUBMIT_CHECKBOX")
  accepted_offer ← non_empty_string (get "offerVersion" v)
  guard (accepted_offer == offer)
  accepted_policy ← non_empty_string (get "cancellationPolicyVersion" v)
  guard (accepted_policy == policy)
  some (record {
    actor_id = actor;
    accepted_at = at;
    offer_version = accepted_offer;
    cancellation_policy_version = accepted_policy;
  })

-- `validAcceptance`: the outer `none` is a refusal. An acceptance that is no record counts as null.
pub valid_acceptance : Option Fields → Option String → Option String → Option (Option Acceptance)
valid_acceptance none none none = some none
valid_acceptance (some v) none none = none
valid_acceptance (some v) (some offer) (some policy) = do
  a ← read_acceptance v offer policy
  some (some a)
valid_acceptance _ _ _ = none

pub read_scenario : Option Json → Option Scenario
read_scenario (some (str s)) =
    if s == "PAY_ON_HANDOVER"
    then some pay_on_handover
    else if s == "FAKE_SAFE_DEAL"
    then some fake_safe_deal
    else none
read_scenario _ = none

-- `value.depositAmount`, null or a number; in kopecks 0 for null.
abbrev deposit_minor : Option Json → Option ℕ
deposit_minor (some null) = some 0
deposit_minor v = minor_units v

abbrev pub number : Option Json → Option ℤ
number (some (num v)) = some v
number _ = none

-- The equations that tie the amounts to one another.
unfoldable pub amounts_agree : MoneyMinor → ℕ → Bool
amounts_agree m days =
    leb (m.price_per_day * days) max_safe_integer
    && (eqb m.rental_subtotal (m.price_per_day * days)
        && (eqb (m.owner_payout + m.platform_fee) m.rental_subtotal
            && eqb m.total (m.rental_subtotal + m.deposit)))

-- What the scenario demands of the deposit and the fee.
unfoldable pub scenario_agrees : Scenario → MoneyMinor → Option DepositTerms → Bool
scenario_agrees pay_on_handover m terms =
    eqb m.deposit 0
    && (eqb m.platform_fee 0 && (eqb m.owner_payout m.rental_subtotal && not (is_some terms)))
scenario_agrees fake_safe_deal m terms =
    if ltb 0 m.deposit then is_some terms else not (is_some terms)

-- The amounts in roubles, as kopecks.
pub record Roubles : Type 0 where
  pub price : ℕ
  pub subtotal : ℕ
  pub deposit : ℕ
  pub fee : ℕ
  pub payout : ℕ
  pub total : ℕ

abbrev pub read_roubles : Fields → Option Roubles
read_roubles value = do
  price ← minor_units (get "pricePerDay" value)
  subtotal ← minor_units (get "rentalSubtotal" value)
  deposit ← deposit_minor (get "depositAmount" value)
  fee ← minor_units (get "platformFee" value)
  payout ← minor_units (get "ownerPayout" value)
  total ← minor_units (get "total" value)
  some (record {
    price = price;
    subtotal = subtotal;
    deposit = deposit;
    fee = fee;
    payout = payout;
    total = total;
  })

-- `suppliedMoney ?? (isOffline ? … : null)`
abbrev pub choose_money : Option MoneyMinor → Scenario → Roubles → Option MoneyMinor
choose_money (some m) s r = some m
choose_money none fake_safe_deal r = none
choose_money none pay_on_handover r = some (record {
  price_per_day = r.price;
  rental_subtotal = r.subtotal;
  deposit = r.deposit;
  platform_fee = r.fee;
  owner_payout = r.payout;
  total = r.total;
})

abbrev pub roubles_agree : Roubles → MoneyMinor → Bool
roubles_agree r m =
    eqb r.price m.price_per_day
    && (eqb r.subtotal m.rental_subtotal
        && (eqb r.deposit m.deposit
            && (eqb r.fee m.platform_fee && (eqb r.payout m.owner_payout && eqb r.total m.total))))

-- `value.depositTerms === undefined && isOffline ? null : readDepositTerms(…)`
abbrev pub terms_of : Option Json → Scenario → Option (Option DepositTerms)
terms_of none pay_on_handover = some none
terms_of v s = read_deposit_terms v

abbrev pub supplied_money : Option Fields → Option MoneyMinor
supplied_money none = none
supplied_money (some v) = read_money_minor v

pub read_handover : Fields → Option Handover
read_handover v = do
  area ← non_empty_string (get "area" v)
  address ← non_empty_string (get "address" v)
  latitude ← coordinate 90 (get "latitude" v)
  longitude ← coordinate 180 (get "longitude" v)
  some (record { area = area; address = address; latitude = latitude; longitude = longitude })

abbrev pub is_rub : String → Bool
is_rub s = s == "RUB"

-- The checks of `readBookingTermsSnapshot` on the money, apart from those on the texts.
pub record MoneyTerms : Type 0 where
  pub scenario : Scenario
  pub days : ℕ
  pub money : MoneyMinor
  pub terms : Option DepositTerms

unfoldable pub read_money_terms : Fields → Option MoneyTerms
read_money_terms value = do
  scenario ← read_scenario (get "paymentScenario" value)
  days ← day_count (get "days" value)
  roubles ← read_roubles value
  money ← choose_money (supplied_money (json_record (get "moneyMinor" value))) scenario roubles
  terms ← terms_of (get "depositTerms" value) scenario
  guard (amounts_agree money days)
  guard (roubles_agree roubles money)
  guard (scenario_agrees scenario money terms)
  some (record { scenario = scenario; days = days; money = money; terms = terms })

abbrev pub accepted_if_online : Scenario → Option Acceptance → Bool
accepted_if_online s a = is_offline s || is_some a

-- The texts of the terms, with the handover and the acceptance.
pub record TextTerms : Type 0 where
  pub title : String
  pub lender : String
  pub name : Option String
  pub place : Handover
  pub listing : String
  pub offer : Option String
  pub policy : Option String
  pub acceptance : Option Acceptance

unfoldable pub read_text_terms : Fields → Fields → Scenario → Option TextTerms
unfolding read_handover valid_acceptance read_acceptance
read_text_terms value place scenario = do
  title ← non_empty_string (get "itemTitle" value)
  lender ← non_empty_string (get "lenderId" value)
  name ← nullable_string (get "lenderDisplayName" value)
  currency ← non_empty_string (get "currency" value)
  guard (is_rub currency)
  handover ← read_handover place
  listing ← non_empty_string (get "listingVersion" value)
  offer ← nullable_version (get "offerVersion" value)
  policy ← nullable_version (get "cancellationPolicyVersion" value)
  acceptance ← valid_acceptance (json_record (get "acceptance" value)) offer policy
  guard (accepted_if_online scenario acceptance)
  some (record {
    title = title;
    lender = lender;
    name = name;
    place = handover;
    listing = listing;
    offer = offer;
    policy = policy;
    acceptance = acceptance;
  })

-- The amounts in roubles, as the snapshot keeps them.
pub record Prices : Type 0 where
  pub price : ℤ
  pub subtotal : ℤ
  pub fee : ℤ
  pub payout : ℤ
  pub total : ℤ

abbrev pub read_prices : Fields → Option Prices
read_prices value = do
  price ← number (get "pricePerDay" value)
  subtotal ← number (get "rentalSubtotal" value)
  fee ← number (get "platformFee" value)
  payout ← number (get "ownerPayout" value)
  total ← number (get "total" value)
  some (record { price = price; subtotal = subtotal; fee = fee; payout = payout; total = total })

abbrev pub snapshot_of : Fields → MoneyTerms → TextTerms → Prices → Snapshot
snapshot_of value money texts prices = record {
  item_title = texts.title;
  lender_id = texts.lender;
  lender_display_name = texts.name;
  price_per_day = prices.price;
  days = money.days;
  rental_subtotal = prices.subtotal;
  deposit_amount = number (get "depositAmount" value);
  platform_fee = prices.fee;
  owner_payout = prices.payout;
  total = prices.total;
  payment_scenario = money.scenario;
  money_minor = money.money;
  deposit_terms = money.terms;
  handover = texts.place;
  listing_version = texts.listing;
  offer_version = texts.offer;
  cancellation_policy_version = texts.policy;
  acceptance = texts.acceptance;
}

unfoldable pub read_record : Fields → Option Snapshot
unfolding read_money_terms read_text_terms
read_record value = do
  place ← json_record (get "handover" value)
  money ← read_money_terms value
  texts ← read_text_terms value place money.scenario
  prices ← read_prices value
  some (snapshot_of value money texts prices)

-- `readBookingTermsSnapshot`
unfoldable pub read_terms : Option Json → Option Snapshot
unfolding read_record read_text_terms read_money_terms read_handover valid_acceptance
    read_acceptance read_scenario read_deposit_terms read_money_minor minor_units safe_minor
    amounts_agree scenario_agrees
read_terms (some (obj value)) = read_record value
read_terms _ = none

-- What the row of the booking says, against which the terms are held.
pub record Binding : Type 0 where
  pub borrower_id : String
  pub lender_id : String
  pub days : ℤ
  pub total_amount : ℕ

abbrev pub acceptance_by : String → Option Acceptance → Bool
acceptance_by borrower none = true
acceptance_by borrower (some a) = a.actor_id == borrower

unfoldable pub is_bound : Binding → Snapshot → Bool
is_bound binding s =
    s.lender_id == binding.lender_id
    && (eqb_ℤ (pos s.days) binding.days
        && (acceptance_by binding.borrower_id s.acceptance
            && eqb s.money_minor.total binding.total_amount))

-- `readBoundBookingTermsSnapshot`
unfoldable pub read_bound_terms : Option Json → Binding → Option Snapshot
unfolding read_terms is_bound
read_bound_terms value binding = do s ← read_terms value; guard (is_bound binding s); some s
