-- ===== src/Payments/Provider.antt =====
-- backend/src/payments/fake-safe-deal.provider.ts: the provider of the fake safe deal. It lives in
-- memory, so what it stores is not rolled back with a transaction. `digest` is the hash of
-- `node:crypto`, cut to 24 characters.
pub mod Laws
use Prim.Native.String.{◌++◌}
use sosedi_app.Prelude.{
  Bool, List, Option, String, eqb, false, find_first, if◌then◌else◌, ltb, none, not, some, true, ℕ,
  ◌&&◌, ◌==◌, ◌∷◌,
}
use sosedi_app.Domain.Failure.{
  Result, err, ok, provider_key_reused, provider_request_invalid, throw_if, ◌>>=◌, ◌>>◌,
}
use sosedi_app.Domain.Status.{OperationKind, kind_is}
use sosedi_app.Text.{has_text}

pub data FakeOutcome : Type 0 where
  success decline timeout : FakeOutcome

-- `FakeCheckoutRequest` and `FakeDepositOperationRequest`; the currency is always `RUB`.
pub data ProviderRequest : Type 0 where
  checkout_request : String → String → ℕ → FakeOutcome → ProviderRequest
  operation_request : String → String → OperationKind → ℕ → FakeOutcome → ProviderRequest

pub data ProviderResult : Type 0 where
  provider_succeeded provider_declined : String → ProviderResult
  provider_timeout : ProviderResult

pub record StoredOperation : Type 0 where
  pub key : String
  pub request : ProviderRequest
  pub result : ProviderResult

-- The map `operations`.
abbrev pub Provider : Type 0
Provider = List StoredOperation

abbrev pub request_key : ProviderRequest → String
request_key (checkout_request key target amount outcome) = key
request_key (operation_request key target kind amount outcome) = key

abbrev pub request_target : ProviderRequest → String
request_target (checkout_request key target amount outcome) = target
request_target (operation_request key target kind amount outcome) = target

abbrev pub request_amount : ProviderRequest → ℕ
request_amount (checkout_request key target amount outcome) = amount
request_amount (operation_request key target kind amount outcome) = amount

abbrev pub request_outcome : ProviderRequest → FakeOutcome
request_outcome (checkout_request key target amount outcome) = outcome
request_outcome (operation_request key target kind amount outcome) = outcome

abbrev pub command_name : ProviderRequest → String
command_name (checkout_request key target amount outcome) = "checkout"
command_name (operation_request key target kind amount outcome) = "deposit"

abbrev pub outcome_is : FakeOutcome → FakeOutcome → Bool
outcome_is success success = true
outcome_is decline decline = true
outcome_is timeout timeout = true
outcome_is _ _ = false

-- The fingerprints of two requests are the same: so are their fields.
unfoldable pub same_request : ProviderRequest → ProviderRequest → Bool
same_request (checkout_request k t a o) (checkout_request k' t' a' o') =
    k == k' && (t == t' && (eqb a a' && outcome_is o o'))
same_request (operation_request k t d a o) (operation_request k' t' d' a' o') =
    k == k' && (t == t' && (kind_is d d' && (eqb a a' && outcome_is o o')))
same_request _ _ = false

-- `validate`
abbrev pub is_valid_request : ProviderRequest → Bool
is_valid_request r =
    has_text (request_key r) && (has_text (request_target r) && ltb 0 (request_amount r))

abbrev pub stored_under : String → Provider → Option StoredOperation
stored_under key provider = find_first (λ s. s.key == key) provider

module _ (digest : String → String) where
  -- `result`
  unfoldable pub result_of : ProviderRequest → ProviderResult
  result_of r = elim (request_outcome r) [
    | decline ↦ provider_declined "FAKE_DECLINED"
    | timeout ↦ provider_timeout
    | success ↦
        provider_succeeded
          ("fake_" ++ command_name r ++ "_" ++ digest (command_name r ++ ":" ++ request_key r))
  ]

  -- `execute`
  unfoldable pub execute : ProviderRequest → Provider → Result (Provider × ProviderResult)
  unfolding result_of same_request
  execute r provider = do
    throw_if (not (is_valid_request r)) provider_request_invalid
    elim (stored_under (request_key r) provider) [
      | some s ↦
          if same_request s.request r then ok (provider, s.result) else err provider_key_reused
      | none ↦ ok (
        record { key = request_key r; request = r; result = result_of r } ∷ provider,
        result_of r,
      )
    ]
