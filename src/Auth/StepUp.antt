-- ===== src/Auth/StepUp.antt =====
-- The second confirmation before a dangerous act: `verifyUserStepUpOtp` and
-- `consumeUserStepUpToken` of backend/src/auth/auth.service.ts. The signing of tokens is an
-- interface.
pub mod Once
use sosedi_app.Prelude.{
  Bool, List, Option, String, eqb, false, if◌then◌else◌, none, not, some, ℕ, ◌&&◌, ◌*◌, ◌==◌, ◌≡◌,
  ◌⊎◌,
}
use sosedi_app.Auth.{
  AuthUser, Entry, Redis, RedisKey, StepUpRecord, as_step_up, expires_in, live, step_up_value,
}
use sosedi_app.Auth.Otp.{verify_and_consume_otp}
use sosedi_app.Auth.Sessions.{user_by_id}
use sosedi_app.Domain.Failure.{Result, err, ok, step_up_required, throw_if, user_unavailable}
use sosedi_app.Text.{is_empty}

-- `JwtUserStepUpPayload`
pub record StepUpPayload : Type 0 where
  pub sub : String
  pub token_type : String
  pub purpose : String
  pub session_version : ℕ
  pub jti : String

-- Signing, and verifying at a moment: a signed token says what was signed, or is refused.
pub record StepUpTokens : Type 1 where
  pub Token : Type 0
  pub sign : ℕ → ℕ → StepUpPayload → Token
  pub read : ℕ → Token → Option StepUpPayload
  pub read-sign :
      (at now ttl : ℕ) (p : StepUpPayload)
      → (read at (sign now ttl p) ≡ some p) ⊎ (read at (sign now ttl p) ≡ none)

abbrev pub user_step_up_ttl_seconds : ℕ
user_step_up_ttl_seconds = 5 * 60

abbrev pub step_up_type : String
step_up_type = "user-step-up"

abbrev pub step_up_payload : AuthUser → String → String → StepUpPayload
step_up_payload u purpose jti = record {
  sub = u.id;
  token_type = step_up_type;
  purpose = purpose;
  session_version = u.session_version;
  jti = jti;
}

abbrev pub step_up_record : StepUpPayload → StepUpRecord
step_up_record p = record {
  user_id = p.sub;
  purpose = p.purpose;
  session_version = p.session_version;
}

abbrev pub step_up_entry : StepUpPayload → ℕ → Entry
step_up_entry p now = record {
  value = step_up_value (step_up_record p);
  expires_at = expires_in now user_step_up_ttl_seconds;
}

-- A user who may be stepped up: of that phone, neither deleted nor blocked.
abbrev pub is_available : String → AuthUser → Bool
is_available phone u = u.phone == phone && (not u.is_deleted && not u.is_blocked)

-- The checks of a payload that need no state.
abbrev pub payload_fits : String → String → StepUpPayload → Bool
payload_fits user purpose p =
    p.token_type == step_up_type
    && (p.purpose == purpose && (p.sub == user && not (is_empty p.jti)))

abbrev pub is_current_user : ℕ → Option AuthUser → Bool
is_current_user version none = false
is_current_user version (some u) =
    not u.is_blocked && (not u.is_deleted && eqb u.session_version version)

-- `stored === JSON.stringify({ userId, purpose, sessionVersion })`
abbrev pub is_stored : String → String → ℕ → Option StepUpRecord → Bool
is_stored user purpose version none = false
is_stored user purpose version (some r) =
    r.user_id == user && (r.purpose == purpose && eqb r.session_version version)

module _ (redis : Redis) (tokens : StepUpTokens) where
  open redis use {Store, view, put, del}
  open tokens use {Token, sign, read}

  -- The token after the code was consumed.
  unfoldable pub issue_step_up :
      String → String → String → String → ℕ → List AuthUser → Store → Store × Result Token
  issue_step_up user phone purpose jti now users s = elim (user_by_id user users) [
    | none ↦ (s, err user_unavailable)
    | some u ↦ if not (is_available phone u) then (s, err user_unavailable) else (
      put (RedisKey.user_step_up jti) (step_up_entry (step_up_payload u purpose jti) now) s,
      ok (sign now user_step_up_ttl_seconds (step_up_payload u purpose jti)),
    )
  ]

  -- `verifyUserStepUpOtp`
  unfoldable pub verify_user_step_up_otp :
      (String → String → Bool)
      → String
      → String
      → String
      → String
      → String
      → ℕ
      → ℕ
      → List AuthUser
      → Store
      → Store × Result Token
  unfolding verify_and_consume_otp issue_step_up
  verify_user_step_up_otp fits user phone code purpose jti now at users s =
      let (s', r) = verify_and_consume_otp redis fits phone code now at s in
      elim r [ err e ↦ (s', err e) | ok _ ↦ issue_step_up user phone purpose jti at users s' ]

  -- `GETDEL`, and the comparison of what was stored.
  unfoldable pub consume_step_up :
      ℕ → String → String → StepUpPayload → List AuthUser → Store → Store × Result (Unit {0})
  consume_step_up now user purpose p users s = (
    del (RedisKey.user_step_up p.jti) s,
    throw_if
        (not (
          is_current_user p.session_version (user_by_id user users)
          && is_stored user purpose p.session_version
              (as_step_up (live now (view s (RedisKey.user_step_up p.jti))))))
        step_up_required,
  )

  -- `consumeUserStepUpToken`
  unfoldable pub consume_user_step_up_token :
      ℕ → Token → String → String → List AuthUser → Store → Store × Result (Unit {0})
  unfolding consume_step_up
  consume_user_step_up_token now t user purpose users s = elim (read now t) [
    | none ↦ (s, err step_up_required)
    | some p ↦
        if payload_fits user purpose p
        then consume_step_up now user purpose p users s
        else (s, err step_up_required)
  ]
