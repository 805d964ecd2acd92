-- ===== src/Booking/Terms.antt =====
-- backend/src/booking/booking-terms.ts: the terms that a booking was made under, as they are stored
-- in `termsSnapshot`, and the reader that accepts them only if they are whole and consistent.
pub mod Reader
pub mod Store
pub mod Sound
use sosedi_app.Prelude.{
  ℕ, zero, suc, ◌+◌, ◌-◌, ◌*◌, ◌/◌, ◌%◌, String, Bool, true, false, not, ◌&&◌, ◌||◌, Option, none,
  some, List, [], ◌∷◌, leb, ltb, eqb, ◌==◌, if◌then◌else◌, is_some,
}
use sosedi_app.Prelude.Int.{ℤ, pos, negsuc, leb_ℤ, eqb_ℤ}
use sosedi_app.Json.{
  Json, null, bool, num, str, arr, obj, Fields, get, units_per_one, of_ℕ, of_option, object,
}
use sosedi_app.Text.{has_text, is_iso_timestamp, ◌>>=◌}

pub data Scenario : Type 0 where
  pay_on_handover fake_safe_deal : Scenario

pub record MoneyMinor : Type 0 where
  pub price_per_day : ℕ
  pub rental_subtotal : ℕ
  pub deposit : ℕ
  pub platform_fee : ℕ
  pub owner_payout : ℕ
  pub total : ℕ

pub record DepositTerms : Type 0 where
  pub policy_version : String
  pub dispute_window_seconds : ℕ

pub record Handover : Type 0 where
  pub area : String
  pub address : String
  pub latitude : ℤ
  pub longitude : ℤ

pub record Acceptance : Type 0 where
  pub actor_id : String
  pub accepted_at : String
  pub offer_version : String
  pub cancellation_policy_version : String

-- The amounts in roubles stand as JSON numbers; `currency` is always `RUB`.
pub record Snapshot : Type 0 where
  pub item_title : String
  pub lender_id : String
  pub lender_display_name : Option String
  pub price_per_day : ℤ
  pub days : ℕ
  pub rental_subtotal : ℤ
  pub deposit_amount : Option ℤ
  pub platform_fee : ℤ
  pub owner_payout : ℤ
  pub total : ℤ
  pub payment_scenario : Scenario
  pub money_minor : MoneyMinor
  pub deposit_terms : Option DepositTerms
  pub handover : Handover
  pub listing_version : String
  pub offer_version : Option String
  pub cancellation_policy_version : Option String
  pub acceptance : Option Acceptance

abbrev pub max_safe_integer : ℕ
max_safe_integer = 9007199254740991

abbrev guard : Bool → Option (Unit {0})
guard true = some tt
guard false = none

abbrev ◌>>◌ : {B : Type 0} → Option (Unit {0}) → Option B → Option B
m >> k = m >>= λ _. k

infixl 5 ◌>>◌
-- `isJsonRecord`
abbrev json_record : Option Json → Option Fields
json_record (some (obj fs)) = some fs
json_record _ = none

-- `isNonEmptyString`, with the text
abbrev non_empty_string : Option Json → Option String
non_empty_string (some (str s)) = if has_text s then some s else none
non_empty_string _ = none

-- `isNullableString`, with the text or null
abbrev nullable_string : Option Json → Option (Option String)
nullable_string (some null) = some none
nullable_string (some (str s)) = some (some s)
nullable_string _ = none

-- `isNullableVersion`
abbrev nullable_version : Option Json → Option (Option String)
nullable_version (some null) = some none
nullable_version (some (str s)) = if has_text s then some (some s) else none
nullable_version _ = none

-- `isCoordinate`; the bounds are whole degrees on both sides of zero
abbrev coordinate : ℕ → Option Json → Option ℤ
coordinate bound (some (num (pos v))) = if leb v (bound * units_per_one) then some (pos v) else none
coordinate bound (some (num (negsuc v))) =
    if leb (suc v) (bound * units_per_one) then some (negsuc v) else none
coordinate bound _ = none

-- The integer that a JSON number is, if it is a safe one.
abbrev whole : ℕ → Option ℕ
whole v =
    if eqb (v % units_per_one) 0 && leb (v / units_per_one) max_safe_integer
    then some (v / units_per_one)
    else none

-- `safeMinor`
pub safe_minor : Option Json → Option ℕ
safe_minor (some (num (pos v))) = whole v
safe_minor _ = none

-- `minorUnits`: roubles to kopecks, refused if they are no whole kopecks.
pub minor_units : Option Json → Option ℕ
minor_units (some (num (pos v))) =
    let scaled = v * 100 in
    let rounded = (scaled + 50000000) / units_per_one in
    if leb rounded max_safe_integer
      && ltb (scaled - rounded * units_per_one + (rounded * units_per_one - scaled)) 100
    then some rounded
    else none
minor_units _ = none

-- `isPositiveSafeInteger`
abbrev positive_safe_integer : Option Json → Option ℕ
positive_safe_integer (some (num (pos v))) = do n ← whole v; guard (ltb 0 n); some n
positive_safe_integer _ = none

-- `typeof value.days === 'number' && Number.isInteger(value.days) && value.days >= 1`
abbrev day_count : Option Json → Option ℕ
day_count (some (num (pos v))) =
    if eqb (v % units_per_one) 0 && leb 1 (v / units_per_one)
    then some (v / units_per_one)
    else none
day_count _ = none

abbrev pub is_offline : Scenario → Bool
is_offline pay_on_handover = true
is_offline fake_safe_deal = false
