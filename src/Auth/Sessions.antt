-- ===== src/Auth/Sessions.antt =====
-- Sessions with refresh tokens: `verifyOtp`, `refresh`, `logout`, `revokeSession`,
-- `revokeAllSessions` and `issueTokens` of backend/src/auth/auth.service.ts. The signing of tokens
-- is an external service and comes as an interface; access tokens, which leave no trace in the
-- state, are left out.
pub mod Issued
pub mod Dead
pub mod Listing
pub mod Replay
pub mod Revoked
use sosedi_app.Prelude.{
  Bool, List, Option, String, [], any, delete_many, eqb, false, find_first, if◌then◌else◌, ltb, map,
  none, not, some, update_many, ℕ, ◌+◌, ◌==◌, ◌∷◌, ◌≡◌, ◌⊎◌,
}
use sosedi_app.Prelude.Sort.{sort_by}
use sosedi_app.Auth.{
  AuthUser, Entry, Redis, RedisKey, SessionRecord, as_members, as_record, ensure_user_can_login,
  expires_in, live, session_value, set_value,
}
use sosedi_app.Auth.Otp.{verify_and_consume_otp}
use sosedi_app.Auth.Phone.{normalize_russian_phone}
use sosedi_app.Domain.Failure.{
  Result, err, ok, refresh_token_invalid, session_revoked, user_not_found,
}

-- `JwtRefreshPayload`, of a token of the type `refresh`
pub record RefreshPayload : Type 0 where
  pub sub : String
  pub session_version : ℕ
  pub jti : String
  pub sid : String

-- Signing, and verifying at a moment: a signed token says what was signed, or is refused.
pub record Tokens : Type 1 where
  pub Token : Type 0
  pub sign : ℕ → ℕ → RefreshPayload → Token
  pub read : ℕ → Token → Option RefreshPayload
  pub read-sign :
      (at now ttl : ℕ) (p : RefreshPayload)
      → (read at (sign now ttl p) ≡ some p) ⊎ (read at (sign now ttl p) ≡ none)

-- The context of `issueTokens`: a session that goes on has an identifier and a beginning.
pub record SessionContext : Type 0 where
  pub installation_id : String
  pub session_id : Option String
  pub created_at : Option ℕ

-- The identifiers that are drawn for new tokens.
pub record DrawnIds : Type 0 where
  pub jti : String
  pub sid : String

abbrev pub value_else {ℓ} : {A : Type ℓ} → A → Option A → A
value_else d none = d
value_else d (some a) = a

abbrev pub payload_of : AuthUser → SessionContext → DrawnIds → RefreshPayload
payload_of u context drawn = record {
  sub = u.id;
  session_version = u.session_version;
  jti = drawn.jti;
  sid = value_else drawn.sid context.session_id;
}

abbrev pub session_of : AuthUser → SessionContext → DrawnIds → ℕ → SessionRecord
session_of u context drawn now = record {
  user_id = u.id;
  session_id = value_else drawn.sid context.session_id;
  current_jti = drawn.jti;
  installation_id = context.installation_id;
  created_at = value_else now context.created_at;
  last_seen_at = now;
}

abbrev pub going_on : SessionRecord → SessionContext
going_on r = record {
  installation_id = r.installation_id;
  session_id = some r.session_id;
  created_at = some r.created_at;
}

abbrev pub session_entry : SessionRecord → ℕ → ℕ → Entry
session_entry r now ttl = record { value = session_value r; expires_at = expires_in now ttl }

-- `SADD` and `EXPIRE` of the set of a user's sessions
abbrev pub joined : String → ℕ → ℕ → Option Entry → Entry
joined sid now ttl e =
    let ms = as_members e in
    record {
      value = set_value (if any (λ m. m == sid) ms then ms else sid ∷ ms);
      expires_at = expires_in now ttl;
    }

-- `UserSessionResponse`
pub record SessionResponse : Type 0 where
  pub session_id : String
  pub installation_id : String
  pub created_at : ℕ
  pub last_seen_at : ℕ
  pub is_current : Bool

abbrev pub session_response :
    String → Option SessionRecord → List SessionResponse → List SessionResponse
session_response installation none rest = rest
session_response installation (some r) rest =
    record {
      session_id = r.session_id;
      installation_id = r.installation_id;
      created_at = r.created_at;
      last_seen_at = r.last_seen_at;
      is_current = r.installation_id == installation;
    }
    ∷ rest

-- `right.lastSeenAt - left.lastSeenAt`: no earlier, so that sorting keeps the order of equals
abbrev pub seen_later : SessionResponse → SessionResponse → Bool
seen_later x y = not (ltb x.last_seen_at y.last_seen_at)

abbrev pub owner_is : Option SessionRecord → String → Bool
owner_is none user = false
owner_is (some r) user = r.user_id == user

abbrev pub user_by_id : String → List AuthUser → Option AuthUser
user_by_id k users = find_first (λ u. u.id == k) users

module _ (redis : Redis) (tokens : Tokens) (ttl : ℕ) where
  open redis use {Store, view, put, del}
  open tokens use {Token, sign, read}

  -- `SREM`: an empty set is no set.
  abbrev pub srem : ℕ → RedisKey → String → Store → Store
  srem now k m s = elim (live now (view s k)) [
    | none ↦ s
    | some e ↦
        let rest = delete_many (λ x. x == m) (as_members (some e)) in
        elim rest [ [] ↦ del k s | x ∷ xs ↦ put k (record e { value = set_value (x ∷ xs) }) s ]
  ]

  -- `issueTokens`, with `ttl` the time of a refresh token in seconds
  unfoldable pub issue_tokens : AuthUser → SessionContext → DrawnIds → ℕ → Store → Store × Token
  issue_tokens u context drawn now s =
      let r = session_of u context drawn now in
      let s1 = put (RedisKey.refresh_token drawn.jti) (session_entry r now ttl) s in
      let s2 = put (RedisKey.session u.id r.session_id) (session_entry r now ttl) s1 in
      (
        put (RedisKey.user_sessions u.id)
            (joined r.session_id now ttl (live now (view s2 (RedisKey.user_sessions u.id)))) s2,
        sign now ttl (payload_of u context drawn),
      )

  -- The deletions of `revokeSession`.
  abbrev pub drop_session : ℕ → String → String → SessionRecord → Store → Store
  drop_session now user sid r s =
      srem now (RedisKey.user_sessions user) sid
        (del (RedisKey.session user sid) (del (RedisKey.refresh_token r.current_jti) s))

  -- `revokeSession`
  unfoldable pub revoke_session : ℕ → String → String → Store → Store
  revoke_session now user sid s = elim (as_record (live now (view s (RedisKey.session user sid)))) [
    | none ↦ s
    | some r ↦ if r.user_id == user then drop_session now user sid r s else s
  ]

  -- `refresh` for a session that was found and belongs to the user of the token.
  unfoldable pub refresh_found :
      ℕ → RefreshPayload → SessionRecord → DrawnIds → List AuthUser → Store → Store × Result Token
  unfolding issue_tokens
  refresh_found now p r drawn users s = elim (user_by_id p.sub users) [
    | none ↦ (del (RedisKey.refresh_token p.jti) s, err user_not_found)
    | some u ↦
        if not (eqb p.session_version u.session_version)
        then (s, err session_revoked)
        else elim (ensure_user_can_login u) [
          | err e ↦ (s, err e)
          | ok _ ↦ let (s', t) = issue_tokens u (going_on r) drawn now s in (s', ok t)
        ]
  ]

  -- The part of `refresh` behind the verification; `GETDEL` reads and deletes.
  unfoldable pub refresh_payload :
      ℕ → RefreshPayload → DrawnIds → List AuthUser → Store → Store × Result Token
  unfolding revoke_session refresh_found
  refresh_payload now p drawn users s =
      let s' = del (RedisKey.refresh_token p.jti) s in
      elim (as_record (live now (view s (RedisKey.refresh_token p.jti)))) [
        | none ↦ (revoke_session now p.sub p.sid s', err session_revoked)
        | some r ↦
            if r.user_id == p.sub
            then refresh_found now p r drawn users s'
            else (revoke_session now p.sub p.sid s', err session_revoked)
      ]

  -- `refresh`
  unfoldable pub refresh : ℕ → Token → DrawnIds → List AuthUser → Store → Store × Result Token
  unfolding refresh_payload
  refresh now t drawn users s = elim (read now t) [
    | none ↦ (s, err refresh_token_invalid)
    | some p ↦ refresh_payload now p drawn users s
  ]

  -- `logout`
  unfoldable pub logout : ℕ → Token → Store → Store
  logout now t s = elim (read now t) [
    | none ↦ s
    | some p ↦
        let s' = del (RedisKey.refresh_token p.jti) s in
        elim (as_record (live now (view s (RedisKey.refresh_token p.jti)))) [
          | none ↦ s'
          | some r ↦
              srem now (RedisKey.user_sessions r.user_id) r.session_id
                (del (RedisKey.session r.user_id r.session_id) s')
        ]
  ]

  -- The refresh tokens of the listed sessions of a user.
  abbrev pub current_tokens : ℕ → String → List String → Store → List String
  current_tokens now user [] s = []
  current_tokens now user (sid ∷ sids) s =
      let rest = current_tokens now user sids s in
      elim (as_record (live now (view s (RedisKey.session user sid)))) [
        | none ↦ rest
        | some r ↦ if r.user_id == user then r.current_jti ∷ rest else rest
      ]

  abbrev pub del_all : List RedisKey → Store → Store
  del_all [] s = s
  del_all (k ∷ ks) s = del k (del_all ks s)

  abbrev pub next_version : AuthUser → AuthUser
  next_version u = record u { session_version = u.session_version + 1 }

  -- `revokeAllSessions`: the table of users and the store. The update of a user that is not there
  -- throws, before anything is deleted.
  unfoldable pub revoke_all_sessions :
      ℕ → String → List AuthUser → Store → List AuthUser × Store × Result (Unit {0})
  revoke_all_sessions now user users s = elim (user_by_id user users) [
    | none ↦ (users, s, err user_not_found)
    | some u ↦
        let sids = as_members (live now (view s (RedisKey.user_sessions user))) in
        (
          update_many (λ u. u.id == user) next_version users,
          del (RedisKey.user_sessions user) (
              del_all (map RedisKey.refresh_token (current_tokens now user sids s))
                (del_all (map (RedisKey.session user) sids) s)),
          ok tt,
        )
  ]

  -- The loop of `listSessions`: what is stale is taken off the list of the user.
  unfoldable pub collect_sessions :
      ℕ → String → String → List String → Store → Store × List SessionResponse
  collect_sessions now user installation [] s = (s, [])
  collect_sessions now user installation (sid ∷ sids) s =
      let found = as_record (live now (view s (RedisKey.session user sid))) in
      let fresh = owner_is found user in
      let s' = if fresh then s else srem now (RedisKey.user_sessions user) sid s in
      let (s'', rest) = collect_sessions now user installation sids s' in
      (s'', if fresh then session_response installation found rest else rest)

  -- `listSessions`, the last seen first
  unfoldable pub list_sessions : ℕ → String → String → Store → Store × List SessionResponse
  unfolding collect_sessions
  list_sessions now user installation s =
      let sids = as_members (live now (view s (RedisKey.user_sessions user))) in
      let (s', found) = collect_sessions now user installation sids s in
      (s', sort_by seen_later found)

  -- `verifyOtp`: the phone is known or becomes a user, `new_id` is its identifier.
  abbrev pub upsert_user : String → String → List AuthUser → List AuthUser × AuthUser
  upsert_user phone new_id users = elim (find_first (λ u. u.phone == phone) users) [
    | some u ↦ (users, u)
    | none ↦
        let u : AuthUser = record {
          id = new_id;
          phone = phone;
          is_blocked = false;
          is_deleted = false;
          session_version = 0;
        } in
        (u ∷ users, u)
  ]

  unfoldable pub login :
      String
      → String
      → DrawnIds
      → String
      → ℕ
      → List AuthUser
      → Store
      → (List AuthUser × Store) × Result Token
  unfolding issue_tokens
  login phone installation_id drawn new_id now users s =
      let (users', u) = upsert_user phone new_id users in
      elim (ensure_user_can_login u) [
        | err e ↦ ((users', s), err e)
        | ok _ ↦
            let (s', t) =
              issue_tokens u
                (record { installation_id = installation_id; session_id = none; created_at = none })
                drawn now s in
            ((users', s'), ok t)
      ]

  unfoldable pub verify_otp :
      (String → String → Bool)
      → String
      → String
      → String
      → DrawnIds
      → String
      → ℕ
      → ℕ
      → List AuthUser
      → Store
      → (List AuthUser × Store) × Result Token
  unfolding verify_and_consume_otp normalize_russian_phone login
  verify_otp fits raw_phone code installation_id drawn new_id now at users s =
      elim (normalize_russian_phone raw_phone) [
        | err e ↦ ((users, s), err e)
        | ok phone ↦
            let (s', r) = verify_and_consume_otp redis fits phone code now at s in
            elim r [
              | err e ↦ ((users, s'), err e)
              | ok _ ↦ login phone installation_id drawn new_id at users s'
            ]
      ]
