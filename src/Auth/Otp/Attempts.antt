-- ===== src/Auth/Otp/Attempts.antt =====
-- Someone who tries codes: how many of them are compared.
use sosedi_app.Prelude.{
  All, Bool, Bool-cases, List, Option-cases, String, [], arith, count_where, eq_refl, false, inl,
  inr, leb, none, refl, suc, true, ℕ, ◌+◌, ◌∷◌, ◌≡◌, ◌≤◌, ◌⊎◌,
}
use sosedi_app.Auth.{Redis, RedisKey, as_number, as_text, live}
use sosedi_app.Auth.Otp.{
  otp_fail_limit, otp_is_blocked, register_otp_failure, verify_and_consume_otp,
}
use sosedi_app.Auth.Otp.Counter.{
  Blocked, Blocked-block, Failing, Failing-counted, InWindow, counted_store, expired_later,
  fail_entry,
}
use sosedi_app.Domain.Failure.{Result, err, ok, otp_blocked, otp_failures_exceeded, otp_wrong}

module _ (redis : Redis) (fits : String → String → Bool) (phone : String) where
  open redis use {Store, view, put, del, view-put, view-del}

  -- A code, with the moment at which it is tried.
  abbrev pub Attempt : Type 0
  Attempt = String × ℕ

  -- The answers to codes that are tried one after another.
  unfoldable pub try_codes : List Attempt → Store → List (Result (Unit {0}))
  try_codes [] s = []
  try_codes ((code, now) ∷ rest) s =
      let (s', r) = verify_and_consume_otp redis fits phone code now now s in r ∷ try_codes rest s'

abbrev pub is_accepted : Result (Unit {0}) → Bool
is_accepted (ok _) = true
is_accepted (err _) = false

-- The answer of a phone that is not blocked.
abbrev pub was_compared : Result (Unit {0}) → Bool
was_compared (err otp_blocked) = false
was_compared _ = true

module _ (redis : Redis) (fits : String → String → Bool) (phone : String) (from : ℕ) where
  open redis use {Store, view, put, del, view-put, view-del}

  -- What one wrong code in the window leads to.
  After : ℕ → Store × Result (Unit {0}) → Type 0
  After n (s, r) =
      ((r ≡ err otp_blocked) × Failing redis phone from n s)
      ⊎ ((r ≡ err otp_wrong) × (suc n ≤ 4) × Failing redis phone from (suc n) s)
      ⊎ ((r ≡ err otp_failures_exceeded) × Blocked redis phone from s)

  register_otp_failure-After :
      (n now : ℕ) (s : Store)
      → n ≤ 4
      → Failing redis phone from n s
      → InWindow redis phone from now
      → After n (register_otp_failure redis now phone s)
  unfolding register_otp_failure After
  register_otp_failure-After n now s few failing w =
      elim (Bool-cases (leb otp_fail_limit (as_number (fail_entry redis phone from now s) + 1))) [
        | inl full ↦ rw full (
            inr (
              inr (
                refl,
                Blocked-block redis phone from now (counted_store redis phone from now s) w,
              )))
        | inr room ↦
            let few_yet : suc n ≤ 4 = few_more n (rw (failing.counts now w) at room) in
            rw room (inr (inl (refl, few_yet, Failing-counted redis phone from n now s failing w)))
      ]
    where
      few_more : (m : ℕ) → leb otp_fail_limit (m + 1) ≡ false → suc m ≤ 4
      few_more m h = ground arith

  -- A code that is not accepted.
  verify_and_consume_otp-After :
      (n now : ℕ) (code : String) (s : Store)
      → n ≤ 4
      → Failing redis phone from n s
      → InWindow redis phone from now
      → is_accepted (verify_and_consume_otp redis fits phone code now now s).1 ≡ false
      → After n (verify_and_consume_otp redis fits phone code now now s)
  unfolding verify_and_consume_otp After
  verify_and_consume_otp-After n now code s few failing w refused =
      elim (Bool-cases (otp_is_blocked redis now phone s)) [
        | inl shut ↦ rw shut (inl (refl, failing))
        | inr free ↦ elim (Option-cases (as_text (live now (view s (RedisKey.otp_code phone))))) [
          | inl missing ↦ rw (free, missing) (register_otp_failure-After n now s few failing w)
          | inr (hash, stored) ↦ elim (Bool-cases (fits code hash)) [
            | inl fitting ↦
                absurd
                  (accepted_clash (rw (free, stored, fitting, stored, eq_refl hash) at refused))
            | inr wrong ↦
                rw (free, stored, wrong) (register_otp_failure-After n now s few failing w)
          ]
        ]
      ]
    where
      accepted_clash : ◌≡◌ {A = Bool} true false → ⊥
      accepted_clash h = cc h

  verify_and_consume_otp-blocked :
      (now : ℕ) (code : String) (s : Store)
      → otp_is_blocked redis now phone s ≡ true
      → verify_and_consume_otp redis fits phone code now now s ≡ (s, err otp_blocked)
  unfolding verify_and_consume_otp
  verify_and_consume_otp-blocked now code s shut = rw shut

  abbrev compared : List (String × ℕ) → Store → ℕ
  compared attempts s = count_where was_compared (try_codes redis fits phone attempts s)

  abbrev InTime : List (String × ℕ) → Type 0
  InTime attempts = All (λ (a : String × ℕ). InWindow redis phone from a.1) attempts

  shut_run :
      (attempts : List (String × ℕ)) (s : Store)
      → InTime attempts
      → Blocked redis phone from s
      → compared attempts s ≡ 0
  unfolding try_codes
  shut_run [] s w shut = refl
  shut_run ((code, now) ∷ rest) s w shut =
      rw (verify_and_consume_otp-blocked now code s (shut now w.0)) (shut_run rest s w.1 shut)

  open_run :
      (attempts : List (String × ℕ)) (n : ℕ) (s : Store)
      → n ≤ 4
      → InTime attempts
      → Failing redis phone from n s
      → All (λ r. is_accepted r ≡ false) (try_codes redis fits phone attempts s)
      → compared attempts s + n ≤ 5
  unfolding try_codes After
  open_run [] n s few w failing refused = omega arith
  open_run ((code, now) ∷ rest) n s few w failing refused =
      let s' = (verify_and_consume_otp redis fits phone code now now s).0 in
      elim (verify_and_consume_otp-After n now code s few failing w.0 refused.0) [
        | inl (shut, same) ↦ rw shut (open_run rest n s' few w.1 same refused.1)
        | inr (inl (wrong, room, more)) ↦
            let ih = open_run rest (suc n) s' room w.1 more refused.1 in rw wrong (omega arith)
        | inr (inr (full, shut)) ↦ let ih = shut_run rest s' w.1 shut in rw full (omega arith)
      ]

  -- Where no failure of the phone is counted at a moment, and codes are tried within half an hour
  -- from it of which none is accepted, at most five are compared; the others find the phone blocked.
  pub try_codes_bounded :
      (attempts : List (String × ℕ)) (s : Store)
      → live from (view s (RedisKey.otp_fail phone)) ≡ none
      → All (λ (a : String × ℕ). InWindow redis phone from a.1) attempts
      → All (λ r. is_accepted r ≡ false) (try_codes redis fits phone attempts s)
      → count_where was_compared (try_codes redis fits phone attempts s) ≤ 5
  try_codes_bounded attempts s fresh w refused =
      let start : Failing redis phone from 0 s = record {
        counts = λ at v. rw (expired_later from at (view s (RedisKey.otp_fail phone)) fresh v.0);
        lasts = λ at v positive. absurd (omega arith);
      } in
      let bound = open_run attempts 0 s (omega arith) w start refused in omega arith
