-- ===== src/Booking/Terms/Store.antt =====
-- `toSnapshotJson` of backend/src/booking/booking-terms.ts.
use sosedi_app.Prelude.{String, [], ◌∷◌}
use sosedi_app.Json.{Json, num, str, obj, of_ℕ, of_option, object}
use sosedi_app.Booking.Terms.{
  Scenario, pay_on_handover, fake_safe_deal, MoneyMinor, DepositTerms, Handover, Acceptance,
  Snapshot,
}

-- The JSON object that `toSnapshotJson` stores.
abbrev scenario_name : Scenario → String
scenario_name pay_on_handover = "PAY_ON_HANDOVER"
scenario_name fake_safe_deal = "FAKE_SAFE_DEAL"

abbrev deposit_terms_json : DepositTerms → Json
deposit_terms_json t = obj (
    object (
      ("policyVersion", str t.policy_version)
      ∷ ("disputeWindowSeconds", of_ℕ t.dispute_window_seconds)
      ∷ []))

abbrev money_json : MoneyMinor → Json
money_json m = obj (
    object (
      ("pricePerDay", of_ℕ m.price_per_day)
      ∷ ("rentalSubtotal", of_ℕ m.rental_subtotal)
      ∷ ("deposit", of_ℕ m.deposit)
      ∷ ("platformFee", of_ℕ m.platform_fee)
      ∷ ("ownerPayout", of_ℕ m.owner_payout)
      ∷ ("total", of_ℕ m.total)
      ∷ []))

abbrev handover_json : Handover → Json
handover_json h = obj (
    object (
      ("area", str h.area)
      ∷ ("address", str h.address)
      ∷ ("latitude", num h.latitude)
      ∷ ("longitude", num h.longitude)
      ∷ []))

abbrev acceptance_json : Acceptance → Json
acceptance_json a = obj (
    object (
      ("actorId", str a.actor_id)
      ∷ ("acceptedAt", str a.accepted_at)
      ∷ ("method", str "BOOKING_SUBMIT_CHECKBOX")
      ∷ ("offerVersion", str a.offer_version)
      ∷ ("cancellationPolicyVersion", str a.cancellation_policy_version)
      ∷ []))

unfoldable pub snapshot_json : Snapshot → Json
snapshot_json s = obj (
    object (
      ("itemTitle", str s.item_title)
      ∷ ("lenderId", str s.lender_id)
      ∷ ("lenderDisplayName", of_option str s.lender_display_name)
      ∷ ("pricePerDay", num s.price_per_day)
      ∷ ("days", of_ℕ s.days)
      ∷ ("rentalSubtotal", num s.rental_subtotal)
      ∷ ("depositAmount", of_option num s.deposit_amount)
      ∷ ("platformFee", num s.platform_fee)
      ∷ ("ownerPayout", num s.owner_payout)
      ∷ ("total", num s.total)
      ∷ ("currency", str "RUB")
      ∷ ("paymentScenario", str (scenario_name s.payment_scenario))
      ∷ ("moneyMinor", money_json s.money_minor)
      ∷ ("depositTerms", of_option deposit_terms_json s.deposit_terms)
      ∷ ("handover", handover_json s.handover)
      ∷ ("listingVersion", str s.listing_version)
      ∷ ("offerVersion", of_option str s.offer_version)
      ∷ ("cancellationPolicyVersion", of_option str s.cancellation_policy_version)
      ∷ ("acceptance", of_option acceptance_json s.acceptance)
      ∷ []))
