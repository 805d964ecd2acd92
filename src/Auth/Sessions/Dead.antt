-- ===== src/Auth/Sessions/Dead.antt =====
-- Tokens whose session is gone.
use sosedi_app.Prelude.{
  Bool-cases, List, String, arith, eq_iff, eq_refl, false, if◌then◌else◌, inl, inr, ltb, none, some,
  ℕ, ◌*◌, ◌+◌, ◌==◌, ◌∙◌, ◌≡◌, ◌≢◌, ◌≤◌,
}
use sosedi_app.Auth.{AuthUser, Redis, RedisKey, SessionRecord, as_record, live}
use sosedi_app.Auth.Sessions.{
  DrawnIds, RefreshPayload, Tokens, refresh, refresh_payload, revoke_session, session_entry,
}
use sosedi_app.Auth.Sessions.Issued.{srem-refresh_key}
use sosedi_app.Domain.Failure.{Error, err, refresh_token_invalid, session_revoked}

-- A string that differs is seen to differ.
pub differs : (a b : String) → a ≢ b → (a == b) ≡ false
differs a b apart = elim (Bool-cases (a == b)) [
  | inl same ↦ absurd (apart ((eq_iff a b).0 same))
  | inr other ↦ other
]

pub live_session :
    (at now ttl : ℕ) (r : SessionRecord)
    → as_record (live at (some (session_entry r now ttl)))
      ≡ (if ltb at (now + ttl * 1000) then some r else none)
live_session at now ttl r = elim (Bool-cases (ltb at (now + ttl * 1000))) [
  | inl early ↦ rw early
  | inr late ↦ rw late
]

module _ (redis : Redis) (tokens : Tokens) (ttl : ℕ) where
  open redis use {Store, view, del, view-del}
  open tokens use {Token, sign, read, read-sign}

  -- A token with no session is refused, and its session is revoked.
  pub refresh_payload-dead :
      (now : ℕ) (p : RefreshPayload) (drawn : DrawnIds) (users : List AuthUser) (s : Store)
      → as_record (live now (view s (RedisKey.refresh_token p.jti))) ≡ none
      → refresh_payload redis tokens ttl now p drawn users s ≡ (
        revoke_session redis tokens ttl now p.sub p.sid (del (RedisKey.refresh_token p.jti) s),
        err session_revoked,
      )
  unfolding refresh_payload
  refresh_payload-dead now p drawn users s gone = rw (refresh_payload, gone)

  pub refresh-read :
      (now : ℕ) (t : Token) (p : RefreshPayload) (drawn : DrawnIds) (users : List AuthUser)
      (s : Store)
      → read now t ≡ some p
      → refresh redis tokens ttl now t drawn users s
        ≡ refresh_payload redis tokens ttl now p drawn users s
  unfolding refresh
  refresh-read now t p drawn users s says = rw (refresh, says)

  pub refresh-unread :
      (now : ℕ) (t : Token) (drawn : DrawnIds) (users : List AuthUser) (s : Store)
      → read now t ≡ none
      → refresh redis tokens ttl now t drawn users s ≡ (s, err refresh_token_invalid)
  unfolding refresh
  refresh-unread now t drawn users s says = rw (refresh, says)

  -- A signed token whose session is gone gives an error at any time.
  pub refresh-sign_dead :
      (at now : ℕ) (p : RefreshPayload) (drawn : DrawnIds) (users : List AuthUser) (s : Store)
      → as_record (live at (view s (RedisKey.refresh_token p.jti))) ≡ none
      → (e : Error) × ((refresh redis tokens ttl at (sign now ttl p) drawn users s).1 ≡ err e)
  refresh-sign_dead at now p drawn users s gone = elim (read-sign at now ttl p) [
    | inl says ↦ (
      session_revoked,
      rw (
        refresh-read at (sign now ttl p) p drawn users s says,
        refresh_payload-dead at p drawn users s gone,
      ),
    )
    | inr unread ↦
        (refresh_token_invalid, rw (refresh-unread at (sign now ttl p) drawn users s unread))
  ]

  -- A session with the tokens that a refresh issued for it.
  pub record Rotated (sub sid old new : String) (now : ℕ) (s : Store) : Type 0 where
    pub current : SessionRecord
    pub owner : current.user_id ≡ sub
    pub jti : current.current_jti ≡ new
    pub old_gone : view s (RedisKey.refresh_token old) ≡ none
    pub new_here : view s (RedisKey.refresh_token new) ≡ some (session_entry current now ttl)
    pub session_here : view s (RedisKey.session sub sid) ≡ some (session_entry current now ttl)

  -- Revoking a rotated session leaves no live session under its new token.
  pub revoke_session-Rotated :
      (sub sid old new : String) (now at later_on : ℕ) (s : Store)
      → Rotated sub sid old new now s
      → old ≢ new
      → at ≤ later_on
      → as_record (
          live later_on (
            view
              (revoke_session redis tokens ttl at sub sid (del (RedisKey.refresh_token old) s))
              (RedisKey.refresh_token new)))
        ≡ none
  unfolding revoke_session
  revoke_session-Rotated sub sid old new now at later_on s rotated apart after =
      let seen = live_session at now ttl rotated.current in
      elim (Bool-cases (ltb at (now + ttl * 1000))) [
        | inl early ↦
            let r : as_record (live at (some (session_entry rotated.current now ttl)))
                ≡ some rotated.current =
              seen ∙ rw early in
            rw (
              revoke_session,
              view-del,
              rotated.session_here,
              r,
              rotated.owner,
              eq_refl sub,
              srem-refresh_key redis tokens ttl at sub sid new _,
              view-del,
              view-del,
              rotated.jti,
              eq_refl new,
            )
        | inr late ↦
            let r : as_record (live at (some (session_entry rotated.current now ttl))) ≡ none =
              seen ∙ rw late in
            let still_late : ltb later_on (now + ttl * 1000) ≡ false = ground arith in
            rw
              (
                revoke_session,
                view-del,
                rotated.session_here,
                r,
                view-del,
                differs old new apart,
                rotated.new_here,
              )
              (live_session later_on now ttl rotated.current ∙ rw still_late)
      ]
