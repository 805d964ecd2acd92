-- ===== src/Auth.antt =====
-- backend/src/auth/auth.service.ts: codes sent by SMS, and sessions with refresh tokens. Redis is
-- an external service and comes as an interface: a store that is seen key by key, with the laws of
-- the commands that the code uses. A key is a constructor for each key function of the service.
pub mod Phone
pub mod Otp
pub mod Sessions
pub mod StepUp
use sosedi_app.Prelude.{
  Bool, List, Option, String, [], eqb, false, if◌then◌else◌, ltb, none, some, true, ℕ, ◌&&◌, ◌*◌,
  ◌+◌, ◌==◌, ◌≡◌,
}
use sosedi_app.Domain.Failure.{Result, throw_if, user_is_blocked, user_not_found, ◌>>=◌, ◌>>◌}

pub data RedisKey : Type 0 where
  otp_code otp_send otp_device_send otp_ip_send otp_fail otp_block : String → RedisKey
  otp_global_send : RedisKey
  refresh_token user_sessions user_step_up : String → RedisKey
  session : String → String → RedisKey

abbrev pub key_is : RedisKey → RedisKey → Bool
key_is (RedisKey.otp_code a) (RedisKey.otp_code b) = a == b
key_is (RedisKey.otp_send a) (RedisKey.otp_send b) = a == b
key_is (RedisKey.otp_device_send a) (RedisKey.otp_device_send b) = a == b
key_is (RedisKey.otp_ip_send a) (RedisKey.otp_ip_send b) = a == b
key_is (RedisKey.otp_fail a) (RedisKey.otp_fail b) = a == b
key_is (RedisKey.otp_block a) (RedisKey.otp_block b) = a == b
key_is RedisKey.otp_global_send RedisKey.otp_global_send = true
key_is (RedisKey.refresh_token a) (RedisKey.refresh_token b) = a == b
key_is (RedisKey.user_sessions a) (RedisKey.user_sessions b) = a == b
key_is (RedisKey.user_step_up a) (RedisKey.user_step_up b) = a == b
key_is (RedisKey.session a c) (RedisKey.session b d) = a == b && c == d
key_is _ _ = false

-- `RefreshSessionRecord`
pub record SessionRecord : Type 0 where
  pub user_id : String
  pub session_id : String
  pub current_jti : String
  pub installation_id : String
  pub created_at : ℕ
  pub last_seen_at : ℕ

-- What is kept for a step-up token.
pub record StepUpRecord : Type 0 where
  pub user_id : String
  pub purpose : String
  pub session_version : ℕ

-- Sessions and step-ups are kept as JSON in Redis; here they are the records.
pub data Value : Type 0 where
  text_value : String → Value
  count_value : ℕ → Value
  session_value : SessionRecord → Value
  step_up_value : StepUpRecord → Value
  set_value : List String → Value

-- A value with the moment at which it expires, if it does.
pub record Entry : Type 0 where
  pub value : Value
  pub expires_at : Option ℕ

-- Redis: what stands under a key, live or expired, and how a write and a deletion change it.
pub record Redis : Type 1 where
  pub Store : Type 0
  pub view : Store → RedisKey → Option Entry
  pub put : RedisKey → Entry → Store → Store
  pub del : RedisKey → Store → Store
  pub view-put :
      (k j : RedisKey) (e : Entry) (s : Store)
      → view (put k e s) j ≡ (if key_is k j then some e else view s j)
  pub view-del :
      (k j : RedisKey) (s : Store) → view (del k s) j ≡ (if key_is k j then none else view s j)

abbrev pub is_live : ℕ → Entry → Bool
is_live now e = elim e.expires_at [ none ↦ true | some t ↦ ltb now t ]

-- `GET`: expired entries are not seen.
abbrev pub live : ℕ → Option Entry → Option Entry
live now none = none
live now (some e) = if is_live now e then some e else none

abbrev pub as_text : Option Entry → Option String
as_text none = none
as_text (some e) = elim e.value [ text_value t ↦ some t | _ ↦ none ]

abbrev pub as_record : Option Entry → Option SessionRecord
as_record none = none
as_record (some e) = elim e.value [ session_value r ↦ some r | _ ↦ none ]

abbrev pub as_step_up : Option Entry → Option StepUpRecord
as_step_up none = none
as_step_up (some e) = elim e.value [ step_up_value r ↦ some r | _ ↦ none ]

abbrev pub as_number : Option Entry → ℕ
as_number none = 0
as_number (some e) = elim e.value [ count_value n ↦ n | _ ↦ 0 ]

abbrev pub as_members : Option Entry → List String
as_members none = []
as_members (some e) = elim e.value [ set_value ms ↦ ms | _ ↦ [] ]

abbrev pub expires_in : ℕ → ℕ → Option ℕ
expires_in now ttl_seconds = some (now + ttl_seconds * 1000)

-- The expiry that an increment keeps.
abbrev pub kept_expiry : Option Entry → Option ℕ
kept_expiry none = none
kept_expiry (some e) = e.expires_at

abbrev pub text_entry : String → ℕ → ℕ → Entry
text_entry t now ttl = record { value = text_value t; expires_at = expires_in now ttl }

-- What `INCR_WITH_EXPIRE_SCRIPT` leaves: `INCR`, and `EXPIRE` after the first.
abbrev pub counted : ℕ → ℕ → Option Entry → Entry
counted now ttl e =
    let n = as_number e + 1 in
    record {
      value = count_value n;
      expires_at = if eqb n 1 then expires_in now ttl else kept_expiry e;
    }

pub record AuthUser : Type 0 where
  pub id : String
  pub phone : String
  pub is_blocked : Bool
  pub is_deleted : Bool
  pub session_version : ℕ

-- `ensureUserCanLogin`
abbrev pub ensure_user_can_login : AuthUser → Result (Unit {0})
ensure_user_can_login u = do
  throw_if u.is_deleted user_not_found
  throw_if u.is_blocked user_is_blocked
