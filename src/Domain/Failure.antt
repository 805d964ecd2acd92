-- ===== src/Domain/Failure.antt =====
-- What a command throws, and the transaction's result. A thrown error rolls the transaction back.
use sosedi_app.Prelude.{Bool, Option, ap, false, inl, inr, none, refl, some, true, ◌≡◌, ◌⊎◌}

-- Named after the `code` of the exception, or after what its message says.
pub data Error : Type 0 where
  terms_acceptance_required idempotency_key_reused too_many_pending item_unavailable own_item :
      Error
  item_deposit_not_supported negative_deposit deposit_requires_safe_deal deposit_above_maximum :
      Error
  user_interaction_blocked calendar_conflict booking_conflict too_many_competing : Error
  subtotal_not_positive price_deposit_negative unsafe_amount legal_gate_closed : Error
  booking_not_found invalid_booking_transition invalid_deposit_transition : Error
  extension_not_supported item_not_found period_not_found : Error
  bad_date start_in_past end_before_start period_too_long beyond_horizon : Error
  fake_safe_deal_required idempotency_key_missing invalid_payment_terms : Error
  payment_state_conflict deposit_state_conflict deposit_snapshot_conflict unexpected_deposit : Error
  provider_request_invalid provider_key_reused hold_not_succeeded deposit_not_settled : Error
  operation_not_found operation_key_reused operation_not_retryable retry_exists : Error
  operation_exceeds_deposit currency_not_rub : Error
  dispute_not_found dispute_not_allowed resolution_mismatch other_decision : Error
  resolution_not_allowed resolution_leg_invalid : Error
  act_not_found own_act act_already_confirmed terms_invalid handover_unpaid handover_not_held :
      Error
  readiness_missing readiness_unexpected act_exists intent_used wrong_stage_actor : Error
  unique_violation : Error
  review_text_unsafe review_booking_not_completed review_completion_not_recorded : Error
  review_window_closed review_already_submitted profile_not_found cursor_invalid : Error
  kyc_upload_disabled content_type_not_allowed size_not_allowed upload_entity_mismatch : Error
  upload_intent_not_found upload_binding_mismatch object_missing object_mismatch : Error
  magic_bytes_mismatch image_unsafe upload_intent_used upload_intent_expired : Error
  photo_limit_reached item_has_unfinished_bookings ticket_not_found evidence_exists : Error
  bad_phone otp_blocked otp_rate_exceeded otp_source_rate_exceeded otp_global_exceeded : Error
  otp_failures_exceeded otp_wrong sms_failed session_revoked user_not_found user_is_blocked : Error
  refresh_token_invalid step_up_required user_unavailable own_block : Error

pub data Result {ℓ} (A : Type ℓ) : Type ℓ where
  err : Error → Result A
  ok : A → Result A

module _ {ℓ κ} {A : Type ℓ} {B : Type κ} where
  infixl 5 ◌>>=◌
  -- What follows a success.
  abbrev pub ◌>>=◌ : Result A → (A → Result B) → Result B
  err thrown >>= next = err thrown
  ok value >>= next = next value

module _ {κ} {B : Type κ} where
  infixl 5 ◌>>◌
  -- What follows a check.
  abbrev pub ◌>>◌ : Result (Unit {0}) → Result B → Result B
  check >> rest = check >>= (λ _. rest)

-- `if (bad) { throw e; }`
abbrev pub throw_if : Bool → Error → Result (Unit {0})
throw_if true e = err e
throw_if false e = ok tt

abbrev pub or_throw {ℓ} : {A : Type ℓ} → Option A → Error → Result A
or_throw none e = err e
or_throw (some a) e = ok a

-- The state after a command: a failed one leaves it as it was.
abbrev pub commit {ℓ κ} : {S : Type ℓ} {A : Type κ} → S → Result (S × A) → S
commit s (ok (s', _)) = s'
commit s (err _) = s

-- Inversion of a successful chain.
module _ {ℓ κ} {A : Type ℓ} {B : Type κ} where
  pub >>=-eq-ok :
      (first : Result A) (next : A → Result B) {final : B}
      → (first >>= next) ≡ ok final
      → (value : A) × (first ≡ ok value) × (next value ≡ ok final)
  >>=-eq-ok (err thrown) next same = cc
  >>=-eq-ok (ok value) next same = (value, refl, same)

module _ {κ} {B : Type κ} where
  pub throw_if-eq-ok :
      (c : Bool) (e : Error) (k : Result B) {b : B}
      → (throw_if c e >> k) ≡ ok b
      → (c ≡ false) × (k ≡ ok b)
  throw_if-eq-ok true e k h = cc
  throw_if-eq-ok false e k h = (refl, h)

module _ {ℓ κ} {A : Type ℓ} {B : Type κ} where
  pub or_throw-eq-ok :
      (o : Option A) (e : Error) (f : A → Result B) {b : B}
      → (or_throw o e >>= f) ≡ ok b
      → (a : A) × (o ≡ some a) × (f a ≡ ok b)
  or_throw-eq-ok none e f h = cc
  or_throw-eq-ok (some a) e f h = (a, refl, h)

pub throw_if-ok : (c : Bool) (e : Error) → throw_if c e ≡ ok tt → c ≡ false
throw_if-ok true e h = cc
throw_if-ok false e h = refl

abbrev from_ok {ℓ} : {A : Type ℓ} → A → Result A → A
from_ok d (ok a) = a
from_ok d (err e) = d

pub ok-injective {ℓ} : {A : Type ℓ} {a b : A} → ok a ≡ ok b → a ≡ b
ok-injective {a = a} h = ap (from_ok a) h

-- Two successes are the same: so are their parts.
pub ok-pair {ℓ κ} :
    {A : Type ℓ} {B : Type κ} {a c : A} {b d : B}
    → ◌≡◌ {A = Result (A × B)} (ok (a, b)) (ok (c, d))
    → (a ≡ c) × (b ≡ d)
ok-pair {A = A} {B = B} {a = a} {b = b} h = (
  ap (λ (r : Result (A × B)). (from_ok (a, b) r).0) h,
  ap (λ (r : Result (A × B)). (from_ok (a, b) r).1) h,
)

pub Result-cases {ℓ} :
    {A : Type ℓ} (r : Result A) → ((e : Error) × (r ≡ err e)) ⊎ ((a : A) × (r ≡ ok a))
Result-cases (ok a) = inr (a, refl)
Result-cases (err e) = inl (e, refl)

pub or_throw-ok {ℓ} :
    {A : Type ℓ} (o : Option A) (e : Error) {a : A} → or_throw o e ≡ ok a → o ≡ some a
or_throw-ok none e h = cc
or_throw-ok (some x) e h = ap (λ y. some y) (ok-injective h)
