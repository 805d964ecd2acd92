-- ===== src/Payments/Provider/Laws.antt =====
-- Repeated calls of the provider of backend/src/payments/fake-safe-deal.provider.ts.
use sosedi_app.Prelude.{
  not-false, num_eq, Bool, Bool-cases, Option-cases, String, arith, eq_iff, eq_refl, eqb, false,
  inl, inr, not, refl, some, subst, sym, true, ◌&&◌, ◌==◌, ◌≡◌, ◌≢◌,
}
use sosedi_app.Domain.Failure.{
  err, ok, ok-pair, provider_key_reused, provider_request_invalid, throw_if-eq-ok,
}
use sosedi_app.Domain.Status.{OperationKind, kind_is}
use sosedi_app.Payments.Provider.{
  FakeOutcome, Provider, ProviderRequest, ProviderResult, StoredOperation, checkout_request,
  execute, is_valid_request, operation_request, outcome_is, request_key, result_of, same_request,
  stored_under,
}

outcome_eq : (o o' : FakeOutcome) → outcome_is o o' ≡ true → o ≡ o'
outcome_eq o o' h = ground arith

kind_eq : (k k' : OperationKind) → kind_is k k' ≡ true → k ≡ k'
kind_eq k k' h = ground arith

-- The fingerprints agree for equal requests only.
pub same_request-eq : (r r' : ProviderRequest) → same_request r r' ≡ true → r ≡ r'
unfolding same_request
same_request-eq (checkout_request k t a o) (checkout_request k' t' a' o') h =
    let (h1, h2, h3, h4) = four (k == k') (t == t') (eqb a a') (outcome_is o o') h in
    rw ((eq_iff k k').0 h1, (eq_iff t t').0 h2, num_eq a a' h3, outcome_eq o o' h4) refl
  where
    four :
        (p q r s : Bool)
        → (p && (q && (r && s))) ≡ true
        → (p ≡ true) × (q ≡ true) × (r ≡ true) × (s ≡ true)
    four p q r s h = (ground arith, ground arith, ground arith, ground arith)
same_request-eq (operation_request k t d a o) (operation_request k' t' d' a' o') h =
    let (h1, h2, h3, h4, h5) =
      five (k == k') (t == t') (kind_is d d') (eqb a a') (outcome_is o o') h in
    rw ((eq_iff k k').0 h1, (eq_iff t t').0 h2, kind_eq d d' h3, num_eq a a' h4, outcome_eq o o' h5)
      refl
  where
    five :
        (p q r s t : Bool)
        → (p && (q && (r && (s && t)))) ≡ true
        → (p ≡ true) × (q ≡ true) × (r ≡ true) × (s ≡ true) × (t ≡ true)
    five p q r s t h = (ground arith, ground arith, ground arith, ground arith, ground arith)
same_request-eq (checkout_request k t a o) (operation_request k' t' d' a' o') h = cc
same_request-eq (operation_request k t d a o) (checkout_request k' t' a' o') h = cc

pub same_request_refl : (r : ProviderRequest) → same_request r r ≡ true
unfolding same_request
same_request_refl (checkout_request k t a o) = rw (eq_refl k, eq_refl t) (ground arith)
same_request_refl (operation_request k t d a o) = rw (eq_refl k, eq_refl t) (ground arith)

-- A call that succeeded has left its request and its result under its key.
pub record Answered (r : ProviderRequest) (provider' : Provider) (a : ProviderResult) : Type 0 where
  pub valid : is_valid_request r ≡ true
  pub stored : StoredOperation
  pub found : stored_under (request_key r) provider' ≡ some stored
  pub request_kept : stored.request ≡ r
  pub result_kept : stored.result ≡ a

module _ (digest : String → String) where
  pub execute-Answered :
      (r : ProviderRequest) (provider provider' : Provider) (a : ProviderResult)
      → execute digest r provider ≡ ok (provider', a)
      → Answered r provider' a
  unfolding execute
  execute-Answered r provider provider' a e =
      let (valid, e1) = throw_if-eq-ok (not (is_valid_request r)) provider_request_invalid _ e in
      elim (Option-cases (stored_under (request_key r) provider)) [
        | inl missing ↦
            let (written, same) = ok-pair (rw missing at e1) in
            record {
              valid = not-false _ valid;
              stored = record { key = request_key r; request = r; result = result_of digest r };
              found = rw (sym written) (rw (eq_refl (request_key r)) refl);
              request_kept = refl;
              result_kept = same;
            }
        | inr (s, found) ↦ elim (Bool-cases (same_request s.request r)) [
          | inl t ↦
              let (unchanged, same) = ok-pair (rw (found, t) at e1) in
              record {
                valid = not-false _ valid;
                stored = s;
                found = rw (sym unchanged) found;
                request_kept = same_request-eq s.request r t;
                result_kept = same;
              }
          | inr t ↦ absurd (cc (rw (found, t) at e1))
        ]
      ]

  -- A call that the provider answered is answered in the same way when it is repeated, and the
  -- provider is left as it is: nothing is paid twice under one key.
  pub execute_replay :
      (r : ProviderRequest) (provider provider' : Provider) (a : ProviderResult)
      → execute digest r provider ≡ ok (provider', a)
      → execute digest r provider' ≡ ok (provider', a)
  unfolding execute
  execute_replay r provider provider' a e =
      let s = execute-Answered r provider provider' a e in
      rw (s.valid, s.found, s.request_kept, same_request_refl r, s.result_kept) refl

  -- After a call was answered, a valid call with the same key and another request is refused, and
  -- never answered by the first result.
  pub execute_reuse :
      (r r' : ProviderRequest) (provider provider' : Provider) (a : ProviderResult)
      → execute digest r provider ≡ ok (provider', a)
      → request_key r' ≡ request_key r
      → r' ≢ r
      → is_valid_request r' ≡ true
      → execute digest r' provider' ≡ err provider_key_reused
  unfolding execute
  execute_reuse r r' provider provider' a e key other valid =
      let s = execute-Answered r provider provider' a e in
      let differs : same_request r r' ≡ false = elim (Bool-cases (same_request r r')) [
        | inl t ↦ absurd (other (sym (same_request-eq r r' t)))
        | inr t ↦ t
      ] in
      let found : stored_under (request_key r') provider' ≡ some s.stored =
        subst (λ x. stored_under x provider' ≡ some s.stored) (sym key) s.found in
      rw (valid, found, s.request_kept, differs) refl
