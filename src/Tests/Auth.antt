-- ===== src/Tests/Auth.antt =====
-- Codes for Anna's phone, and her sessions, with Redis as a function and a token that is its
-- payload.
use sosedi_app.Prelude.{
  Bool, List, Option, String, [], arith, count_where, eq_iff, false, if◌then◌else◌, inl, map, none,
  refl, some, true, ℕ, ◌*◌, ◌+◌, ◌==◌, ◌∷◌, ◌≡◌, ◌≤◌,
}
use sosedi_app.Prelude.Sort.{Ascends, sort_by}
use sosedi_app.Auth.{AuthUser, Entry, Redis, RedisKey, as_members, key_is, live}
use sosedi_app.Auth.Otp.{OtpLimits, OtpRequest, request_otp, verify_and_consume_otp}
use sosedi_app.Auth.Otp.Attempts.{try_codes, try_codes_bounded, was_compared}
use sosedi_app.Auth.Phone.{normalize_russian_phone}
use sosedi_app.Auth.Phone.Laws.{normalize_russian_phone_idem}
use sosedi_app.Auth.Sessions.{
  DrawnIds, RefreshPayload, SessionContext, SessionResponse, Tokens, collect_sessions, issue_tokens,
  list_sessions, payload_of, refresh, revoke_all_sessions, seen_later, user_by_id,
}
use sosedi_app.Auth.Sessions.Listing.{list_sessions-Ascends, own_sessions}
use sosedi_app.Auth.Sessions.Replay.{refresh_replay}
use sosedi_app.Auth.Sessions.Revoked.{refresh_revoked}
use sosedi_app.Auth.StepUp.{
  StepUpPayload, StepUpTokens, consume_user_step_up_token, issue_step_up, step_up_payload,
}
use sosedi_app.Auth.StepUp.Once.{consume_step_up_once}
use sosedi_app.Domain.Failure.{
  Error, Result, err, ok, otp_blocked, otp_failures_exceeded, otp_wrong, session_revoked,
  step_up_required,
}
use sosedi_app.Tests.Data.{minute}

abbrev memory : Redis
memory = record {
  Store = RedisKey → Option Entry;
  view = λ s k. s k;
  put = λ k e s j. if key_is k j then some e else s j;
  del = λ k s j. if key_is k j then none else s j;
  view-put = λ k j e s. refl;
  view-del = λ k j s. refl;
}

abbrev plain_tokens : Tokens
plain_tokens = record {
  Token = RefreshPayload;
  sign = λ now ttl p. p;
  read = λ at t. some t;
  read-sign = λ at now ttl p. inl refl;
}

abbrev annas_phone : String
annas_phone = "+79001234567"

normalizes : normalize_russian_phone "8 (900) 123-45-67" ≡ ok annas_phone
unfolding normalize_russian_phone
normalizes = refl

normalize_russian_phone_idem_example : normalize_russian_phone annas_phone ≡ ok annas_phone
normalize_russian_phone_idem_example =
    normalize_russian_phone_idem "8 (900) 123-45-67" annas_phone normalizes

abbrev empty_store : RedisKey → Option Entry
empty_store k = none

-- A code is sent, and six wrong ones are tried.
abbrev code_request : OtpRequest
code_request = record { device_hash = "d"; ip_hash = "a"; code_hash = "123456"; sent = true }

abbrev limits : OtpLimits
limits = record { device = 6; ip = 60; global = 1000 }

abbrev with_code : RedisKey → Option Entry
with_code = (request_otp memory limits "89001234567" code_request minute empty_store).0

abbrev same_code : String → String → Bool
same_code code hash = code == hash

abbrev wrong_codes : List (String × ℕ)
wrong_codes =
    ("1", minute)
    ∷ ("2", minute + 1)
    ∷ ("3", minute + 2)
    ∷ ("4", minute + 3)
    ∷ ("5", minute + 4)
    ∷ ("6", minute + 5)
    ∷ []

answers :
    try_codes memory same_code annas_phone wrong_codes with_code
    ≡ err otp_wrong
      ∷ err otp_wrong
      ∷ err otp_wrong
      ∷ err otp_wrong
      ∷ err otp_failures_exceeded
      ∷ err otp_blocked
      ∷ []
unfolding try_codes verify_and_consume_otp request_otp
answers = refl

try_codes_bounded_example :
    count_where was_compared (try_codes memory same_code annas_phone wrong_codes with_code) ≤ 5
unfolding request_otp
try_codes_bounded_example =
    try_codes_bounded memory same_code annas_phone minute wrong_codes with_code refl (omega arith)
      (rw answers (refl, (refl, (refl, (refl, (refl, (refl, tt)))))))

-- Anna's session.
abbrev anna_user : AuthUser
anna_user = record {
  id = "anna";
  phone = annas_phone;
  is_blocked = false;
  is_deleted = false;
  session_version = 1;
}

abbrev phone_context : SessionContext
phone_context = record { installation_id = "phone"; session_id = none; created_at = none }

abbrev ids : String → DrawnIds
ids jti = record { jti = jti; sid = "s" }

abbrev month : ℕ
month = 30 * 24 * 60 * 60

abbrev anna_session : RedisKey → Option Entry
anna_session =
    (issue_tokens memory plain_tokens month anna_user phone_context (ids "j1") minute empty_store).0

abbrev first_token : RefreshPayload
first_token = payload_of anna_user phone_context (ids "j1")

abbrev refreshed : (RedisKey → Option Entry) × Result RefreshPayload
refreshed =
    refresh memory plain_tokens month (2 * minute) first_token (ids "j2") (anna_user ∷ [])
      anna_session

abbrev second_token : RefreshPayload
second_token = record first_token { jti = "j2" }

refreshes : refreshed ≡ (refreshed.0, ok second_token)
unfolding refresh issue_tokens
refreshes = refl

refresh_replay_example :
    let replay =
      refresh memory plain_tokens month
        (3 * minute)
        first_token
        (ids "j3")
        (anna_user ∷ [])
        refreshed.0 in
    (replay.1 ≡ err session_revoked)
    × ((e : Error) × ((refresh memory plain_tokens month
            (4 * minute)
            second_token
            (ids "j4")
            (anna_user ∷ [])
            replay.0).1
          ≡ err e))
refresh_replay_example =
    refresh_replay memory plain_tokens month anna_user phone_context (ids "j1") (ids "j2")
      (anna_user ∷ []) minute (2 * minute) empty_store refreshed.0 second_token refreshes
      (ground (arith, eq_iff "j1" "j2")) (3 * minute) (4 * minute) (ids "j3") (ids "j4")
      (anna_user ∷ []) (anna_user ∷ []) first_token refl (omega arith)

refresh_revoked_example :
    (e : Error) × ((refresh memory plain_tokens month
        (2 * minute)
        first_token
        (ids "j2")
        (revoke_all_sessions memory plain_tokens month minute "anna"
          (anna_user ∷ [])
          anna_session).0
        anna_session).1
      ≡ err e)
refresh_revoked_example =
    refresh_revoked memory plain_tokens month minute (2 * minute) (anna_user ∷ []) anna_session
      anna_session first_token first_token anna_user (ids "j2") refl (omega arith) refl

-- A second confirmation of Anna's, for the export of her data.
abbrev step_up_tokens : StepUpTokens
step_up_tokens = record {
  Token = StepUpPayload;
  sign = λ now ttl p. p;
  read = λ at t. some t;
  read-sign = λ at now ttl p. inl refl;
}

abbrev export_payload : StepUpPayload
export_payload = step_up_payload anna_user "DATA_EXPORT" "j5"

abbrev stepped_up : RedisKey → Option Entry
stepped_up =
    (issue_step_up memory step_up_tokens "anna" annas_phone "DATA_EXPORT" "j5" minute
      (anna_user ∷ []) empty_store).0

abbrev consumed_step_up : (RedisKey → Option Entry) × Result (Unit {0})
consumed_step_up =
    consume_user_step_up_token memory step_up_tokens (2 * minute) export_payload "anna"
      "DATA_EXPORT" (anna_user ∷ []) stepped_up

consume_step_up_once_example :
    ((export_payload.sub ≡ "anna")
      × (export_payload.purpose ≡ "DATA_EXPORT")
      × ((u : AuthUser) × (user_by_id "anna" (anna_user ∷ []) ≡ some u)
          × (u.session_version ≡ export_payload.session_version)
          × (u.is_blocked ≡ false)
          × (u.is_deleted ≡ false)))
    × ((consume_user_step_up_token memory step_up_tokens
          (3 * minute)
          export_payload
          "anna"
          "DATA_EXPORT"
          (anna_user ∷ [])
          consumed_step_up.0).1
        ≡ err step_up_required)
unfolding issue_step_up consume_user_step_up_token
consume_step_up_once_example =
    consume_step_up_once memory step_up_tokens minute (2 * minute) export_payload "anna"
      "DATA_EXPORT" (anna_user ∷ []) stepped_up refl (3 * minute) "anna" "DATA_EXPORT"
      (anna_user ∷ [])

-- Anna's sessions on two devices.
abbrev two_sessions : RedisKey → Option Entry
two_sessions =
    (issue_tokens memory plain_tokens month anna_user
      (record { installation_id = "tablet"; session_id = some "t"; created_at = none }) (ids "j6")
      (2 * minute) anna_session).0

list_sessions-Ascends_example :
    Ascends seen_later
      (list_sessions memory plain_tokens month (3 * minute) "anna" "phone" two_sessions).1
    × ((list_sessions memory plain_tokens month (3 * minute) "anna" "phone" two_sessions).1
        ≡ sort_by seen_later (
            own_sessions
              (3 * minute)
              "anna"
              "phone"
              (as_members (live (3 * minute) (two_sessions (RedisKey.user_sessions "anna"))))
              two_sessions))
list_sessions-Ascends_example =
    list_sessions-Ascends memory plain_tokens month (3 * minute) "anna" "phone" two_sessions

tablet_first :
    map
      (λ (x : SessionResponse). x.installation_id)
      (list_sessions memory plain_tokens month (3 * minute) "anna" "phone" two_sessions).1
    ≡ "tablet" ∷ "phone" ∷ []
unfolding list_sessions collect_sessions issue_tokens
tablet_first = refl
