-- ===== src/Auth/Otp.antt =====
-- Codes that are sent by SMS: `requestOtp` and `verifyAndConsumeOtp` of
-- backend/src/auth/auth.service.ts. The hash of a code, the hash of a device or an address, and the
-- answer of the SMS service are arguments. The metrics are left out.
pub mod Counter
pub mod Attempts
use sosedi_app.Prelude.{
  Bool, Option, String, false, if◌then◌else◌, is_some, leb, ltb, none, some, true, ℕ, ◌*◌, ◌+◌,
  ◌==◌, ◌||◌,
}
use sosedi_app.Auth.{Redis, RedisKey, as_number, as_text, counted, live, text_entry}
use sosedi_app.Auth.Phone.{normalize_russian_phone}
use sosedi_app.Domain.Failure.{
  Result, err, ok, otp_blocked, otp_failures_exceeded, otp_global_exceeded, otp_rate_exceeded,
  otp_source_rate_exceeded, otp_wrong, sms_failed,
}

-- The limits, from the configuration.
pub record OtpLimits : Type 0 where
  pub device : ℕ
  pub ip : ℕ
  pub global : ℕ

-- Where a request comes from, as hashes; the hash of the code that is drawn; whether the SMS went.
pub record OtpRequest : Type 0 where
  pub device_hash : String
  pub ip_hash : String
  pub code_hash : String
  pub sent : Bool

abbrev pub otp_ttl_seconds : ℕ
otp_ttl_seconds = 5 * 60

abbrev pub otp_rate_limit : ℕ
otp_rate_limit = 3

abbrev pub otp_rate_window_seconds : ℕ
otp_rate_window_seconds = 10 * 60

abbrev pub otp_global_rate_window_seconds : ℕ
otp_global_rate_window_seconds = 24 * 60 * 60

abbrev pub otp_fail_limit : ℕ
otp_fail_limit = 5

abbrev pub otp_block_seconds : ℕ
otp_block_seconds = 30 * 60

abbrev pub text_is : Option String → String → Bool
text_is none t = false
text_is (some s) t = s == t

module _ (redis : Redis) where
  open redis use {Store, view, put, del}

  -- `incrWithExpire`
  abbrev pub incr_with_expire : ℕ → RedisKey → ℕ → Store → Store × ℕ
  incr_with_expire now k ttl s =
      (put k (counted now ttl (live now (view s k))) s, as_number (live now (view s k)) + 1)

  -- `ensureOtpNotBlocked`, as a test
  abbrev pub otp_is_blocked : ℕ → String → Store → Bool
  otp_is_blocked now phone s = is_some (live now (view s (RedisKey.otp_block phone)))

  -- `consumeOtpCode`: the script compares and deletes in one step.
  abbrev pub consume_otp_code : ℕ → String → String → Store → Store × Bool
  consume_otp_code now phone expected s =
      if text_is (as_text (live now (view s (RedisKey.otp_code phone)))) expected
      then (del (RedisKey.otp_code phone) s, true)
      else (s, false)

  -- The writes of the fifth failure.
  abbrev pub block_phone : ℕ → String → Store → Store
  block_phone now phone s = del (RedisKey.otp_fail phone) (
      del (RedisKey.otp_code phone)
        (put (RedisKey.otp_block phone) (text_entry "1" now otp_block_seconds) s))

  -- `registerOtpFailure`
  unfoldable pub register_otp_failure : ℕ → String → Store → Store × Result (Unit {0})
  register_otp_failure now phone s =
      let (s', n) = incr_with_expire now (RedisKey.otp_fail phone) otp_block_seconds s in
      if leb otp_fail_limit n
      then (block_phone now phone s', err otp_failures_exceeded)
      else (s', err otp_wrong)

  -- The end of a verification whose code fits the hash.
  abbrev pub accept_otp : ℕ → String → String → Store → Store × Result (Unit {0})
  accept_otp at phone hash s =
      let (s', consumed) = consume_otp_code at phone hash s in
      if consumed then (del (RedisKey.otp_fail phone) s', ok tt) else (s', err otp_wrong)

  -- `verifyAndConsumeOtp`; `fits` compares a code with a hash, the code is read at `now` and
  -- consumed at `at`.
  unfoldable pub verify_and_consume_otp :
      (String → String → Bool) → String → String → ℕ → ℕ → Store → Store × Result (Unit {0})
  unfolding register_otp_failure
  verify_and_consume_otp fits phone code now at s =
      if otp_is_blocked now phone s
      then (s, err otp_blocked)
      else elim (as_text (live now (view s (RedisKey.otp_code phone)))) [
        | none ↦ register_otp_failure now phone s
        | some hash ↦
            if fits code hash then accept_otp at phone hash s else register_otp_failure now phone s
      ]

  -- The code is stored, and taken back if the SMS did not go.
  unfoldable pub send_otp : String → OtpRequest → ℕ → Store → Store × Result String
  send_otp phone request now s =
      let s' = put (RedisKey.otp_code phone) (text_entry request.code_hash now otp_ttl_seconds) s in
      if request.sent
      then (s', ok phone)
      else ((consume_otp_code now phone request.code_hash s').0, err sms_failed)

  -- The last counter, of all codes of a day.
  unfoldable pub send_otp_counted :
      OtpLimits → String → OtpRequest → ℕ → Store → Store × Result String
  unfolding send_otp
  send_otp_counted limits phone request now s =
      let (s', n) =
        incr_with_expire now RedisKey.otp_global_send otp_global_rate_window_seconds s in
      if ltb limits.global n then (s', err otp_global_exceeded) else send_otp phone request now s'

  -- The counters of the phone, the device and the address.
  unfoldable pub request_otp_for :
      OtpLimits → String → OtpRequest → ℕ → Store → Store × Result String
  unfolding send_otp_counted
  request_otp_for limits phone request now s =
      let (s1, of_phone) =
        incr_with_expire now (RedisKey.otp_send phone) otp_rate_window_seconds s in
      let (s2, of_device) =
        incr_with_expire now (RedisKey.otp_device_send request.device_hash) otp_rate_window_seconds
          s1 in
      let (s3, of_ip) =
        incr_with_expire now (RedisKey.otp_ip_send request.ip_hash) otp_rate_window_seconds s2 in
      if ltb otp_rate_limit of_phone
      then (s3, err otp_rate_exceeded)
      else if ltb limits.device of_device || ltb limits.ip of_ip
      then (s3, err otp_source_rate_exceeded)
      else send_otp_counted limits phone request now s3

  -- `requestOtp`, with the phone that it answers
  unfoldable pub request_otp : OtpLimits → String → OtpRequest → ℕ → Store → Store × Result String
  unfolding request_otp_for normalize_russian_phone
  request_otp limits raw_phone request now s = elim (normalize_russian_phone raw_phone) [
    | err e ↦ (s, err e)
    | ok phone ↦
        if otp_is_blocked now phone s
        then (s, err otp_blocked)
        else request_otp_for limits phone request now s
  ]
