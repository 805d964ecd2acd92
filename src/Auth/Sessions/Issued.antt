-- ===== src/Auth/Sessions/Issued.antt =====
-- What the issue of a refresh token leaves in the store, and what a refresh that succeeded did.
use sosedi_app.Prelude.{
  Bool-cases, List, Option-cases, String, [], delete_many, eq_refl, eqb, false, if◌then◌else◌, inl,
  inr, refl, some, sym, true, ℕ, ◌==◌, ◌∙◌, ◌∷◌, ◌≡◌,
}
use sosedi_app.Auth.{
  AuthUser, Entry, Redis, RedisKey, SessionRecord, as_members, as_record, ensure_user_can_login,
  key_is, live, set_value,
}
use sosedi_app.Auth.Sessions.{
  DrawnIds, RefreshPayload, SessionContext, Tokens, going_on, issue_tokens, payload_of,
  refresh_found, refresh_payload, session_entry, session_of, srem, user_by_id, value_else,
}
use sosedi_app.Domain.Failure.{
  Error, Result, Result-cases, err, ok, ok-injective, session_revoked, user_not_found,
}

module _ (redis : Redis) (tokens : Tokens) (ttl : ℕ) where
  open redis use {Store, view, put, del, view-put, view-del}
  open tokens use {Token, sign, read, read-sign}

  pub issue_tokens-refresh_key :
      (u : AuthUser) (context : SessionContext) (drawn : DrawnIds) (now : ℕ) (s : Store)
      (j : String)
      → view (issue_tokens redis tokens ttl u context drawn now s).0 (RedisKey.refresh_token j) ≡ (
          if drawn.jti == j
          then some (session_entry (session_of u context drawn now) now ttl)
          else view s (RedisKey.refresh_token j))
  unfolding issue_tokens
  issue_tokens-refresh_key u context drawn now s j = rw (view-put, view-put, view-put)

  pub issue_tokens-session_key :
      (u : AuthUser) (context : SessionContext) (drawn : DrawnIds) (now : ℕ) (s : Store)
      → view
          (issue_tokens redis tokens ttl u context drawn now s).0
          (RedisKey.session u.id (value_else drawn.sid context.session_id))
        ≡ some (session_entry (session_of u context drawn now) now ttl)
  unfolding issue_tokens
  issue_tokens-session_key u context drawn now s =
      rw (view-put, view-put, eq_refl u.id, eq_refl (value_else drawn.sid context.session_id))

  pub issue_tokens-token :
      (u : AuthUser) (context : SessionContext) (drawn : DrawnIds) (now : ℕ) (s : Store)
      → (issue_tokens redis tokens ttl u context drawn now s).1
        ≡ sign now ttl (payload_of u context drawn)
  unfolding issue_tokens
  issue_tokens-token u context drawn now s = refl

  -- The set of sessions is another key.
  pub srem-other :
      (now : ℕ) (user m : String) (j : RedisKey) (s : Store)
      → key_is (RedisKey.user_sessions user) j ≡ false
      → view (srem redis tokens ttl now (RedisKey.user_sessions user) m s) j ≡ view s j
  srem-other now user m j s other =
      elim (Option-cases (live now (view s (RedisKey.user_sessions user)))) [
        | inl gone ↦ rw (srem, gone)
        | inr (e, here) ↦ rw (srem, here) (left e (delete_many (λ x. x == m) (as_members (some e))))
      ]
    where
      left :
          (e : Entry) (rest : List String)
          → view
              (elim rest [
                | [] ↦ del (RedisKey.user_sessions user) s
                | x ∷ xs ↦
                    put (RedisKey.user_sessions user) (record e { value = set_value (x ∷ xs) }) s
              ])
              j
            ≡ view s j
      left e [] = rw (view-del, other)
      left e (x ∷ xs) = rw (view-put, other)

  pub srem-refresh_key :
      (now : ℕ) (user m j : String) (s : Store)
      → view
          (srem redis tokens ttl now (RedisKey.user_sessions user) m s)
          (RedisKey.refresh_token j)
        ≡ view s (RedisKey.refresh_token j)
  srem-refresh_key now user m j s = srem-other now user m (RedisKey.refresh_token j) s refl

  -- A refresh that succeeded found a session of the user of the token, and issued tokens for it.
  pub record Refreshed (now : ℕ) (p : RefreshPayload) (drawn : DrawnIds) (users : List AuthUser)
      (s s' : Store) (t : Token) : Type 0 where
    pub stored : SessionRecord
    pub here : as_record (live now (view s (RedisKey.refresh_token p.jti))) ≡ some stored
    pub owned : (stored.user_id == p.sub) ≡ true
    pub user : AuthUser
    pub known : user_by_id p.sub users ≡ some user
    pub same_version : eqb p.session_version user.session_version ≡ true
    pub store_after :
        s'
        ≡ (issue_tokens redis tokens ttl user
            (going_on stored)
            drawn
            now
            (del (RedisKey.refresh_token p.jti) s)).0
    pub token_after : t ≡ sign now ttl (payload_of user (going_on stored) drawn)

  -- The second of a pair, where it is a success.
  refused : (e : Error) {t : Token} → ◌≡◌ {A = Result Token} (err e) (ok t) → ⊥
  refused e h = cc h

  pub refresh_payload-Refreshed :
      (now : ℕ) (p : RefreshPayload) (drawn : DrawnIds) (users : List AuthUser) (s : Store)
      {t : Token}
      → (refresh_payload redis tokens ttl now p drawn users s).1 ≡ ok t
      → Refreshed now p drawn users s (refresh_payload redis tokens ttl now p drawn users s).0 t
  unfolding refresh_payload refresh_found
  refresh_payload-Refreshed now p drawn users s e =
      elim (Option-cases (as_record (live now (view s (RedisKey.refresh_token p.jti))))) [
        | inl gone ↦ absurd (refused session_revoked (rw (refresh_payload, gone) at e))
        | inr (r, here) ↦ elim (Bool-cases (r.user_id == p.sub)) [
          | inr other ↦ absurd (refused session_revoked (rw (refresh_payload, here, other) at e))
          | inl owned ↦ elim (Option-cases (user_by_id p.sub users)) [
            | inl unknown ↦ absurd (
                refused user_not_found
                  (rw (refresh_payload, here, owned, refresh_found, unknown) at e))
            | inr (u, known) ↦ elim (Bool-cases (eqb p.session_version u.session_version)) [
              | inr old ↦ absurd (
                  refused session_revoked
                    (rw (refresh_payload, here, owned, refresh_found, known, old) at e))
              | inl current ↦ elim (Result-cases (ensure_user_can_login u)) [
                | inl (x, no_login) ↦ absurd (
                    refused x (
                      rw (refresh_payload, here, owned, refresh_found, known, current, no_login) at
                        e))
                | inr (_, may) ↦
                    rw (refresh_payload, here, owned, refresh_found, known, current, may)
                      (record {
                        stored = r;
                        here = here;
                        owned = owned;
                        user = u;
                        known = known;
                        same_version = current;
                        store_after = refl;
                        token_after =
                            sym (
                              ok-injective (
                                rw
                                  (refresh_payload, here, owned, refresh_found, known, current, may)
                                  at e))
                            ∙ issue_tokens-token u (going_on r) drawn now
                                (del (RedisKey.refresh_token p.jti) s);
                      })
              ]
            ]
          ]
        ]
      ]
