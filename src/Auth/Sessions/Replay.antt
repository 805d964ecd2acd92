-- ===== src/Auth/Sessions/Replay.antt =====
-- A refresh token that is used a second time.
use sosedi_app.Prelude.{
  Bool, List, Option, String, ap, arith, eq_iff, eq_refl, false, find_first_holds, if◌then◌else◌,
  inl, inr, ltb, none, refl, some, subst, subst₂, sym, true, ℕ, ◌*◌, ◌+◌, ◌==◌, ◌∙◌, ◌≡◌, ◌≢◌, ◌≤◌,
  ◌⊎◌,
}
use sosedi_app.Auth.{AuthUser, Redis, RedisKey, SessionRecord, as_record, live}
use sosedi_app.Auth.Sessions.{
  DrawnIds, RefreshPayload, SessionContext, Tokens, going_on, issue_tokens, payload_of, refresh,
  refresh_payload, session_entry, session_of, value_else,
}
use sosedi_app.Auth.Sessions.Dead.{
  Rotated, differs, live_session, refresh-read, refresh-sign_dead, refresh-unread,
  refresh_payload-dead, revoke_session-Rotated,
}
use sosedi_app.Auth.Sessions.Issued.{
  Refreshed, issue_tokens-refresh_key, issue_tokens-session_key, refresh_payload-Refreshed,
}
use sosedi_app.Domain.Failure.{Error, Result, err, ok, refresh_token_invalid, session_revoked}

-- A session is issued, and its token is used once.
module _ (redis : Redis) (tokens : Tokens) (ttl : ℕ) (u : AuthUser) (context : SessionContext)
    (first second : DrawnIds) (users : List AuthUser) (issued used : ℕ) (s0 : redis.Store) where
  open redis use {Store, view, del, view-del}
  open tokens use {Token, sign, read, read-sign}

  abbrev pub issued_store : Store
  issued_store = (issue_tokens redis tokens ttl u context first issued s0).0

  abbrev pub issued_token : Token
  issued_token = sign issued ttl (payload_of u context first)

  abbrev issued_session : SessionRecord
  issued_session = session_of u context first issued

  module _ (s2 : Store) (t2 : Token)
      (rotated : refresh redis tokens ttl used issued_token second users issued_store ≡ (s2, ok t2))
      (apart : first.jti ≢ second.jti) where
    token_read : read used issued_token ≡ some (payload_of u context first)
    token_read = elim (read-sign used issued ttl (payload_of u context first)) [
      | inl says ↦ says
      | inr unread ↦ absurd (
          clash (
            ap (λ (x : Store × Result Token). x.1)
              (sym (
                  refresh-unread redis tokens ttl used issued_token second users issued_store
                    unread)
                ∙ rotated)))
    ]
      where
        clash : ◌≡◌ {A = Result Token} (err refresh_token_invalid) (ok t2) → ⊥
        clash h = cc h

    as_payload :
        refresh_payload redis tokens ttl used (payload_of u context first) second users issued_store
        ≡ (s2, ok t2)
    as_payload =
        sym (
          refresh-read redis tokens ttl used issued_token (payload_of u context first) second users
            issued_store token_read)
        ∙ rotated

    done :
        Refreshed redis tokens ttl used (payload_of u context first) second users issued_store s2 t2
    done =
        subst
          (λ x.
            Refreshed redis tokens ttl used (payload_of u context first) second users issued_store x
              t2)
          (ap (λ (x : Store × Result Token). x.0) as_payload)
          (refresh_payload-Refreshed redis tokens ttl used (payload_of u context first) second users
            issued_store (ap (λ (x : Store × Result Token). x.1) as_payload))

    -- The session that was found is the one that was issued.
    found_session : done.stored ≡ issued_session
    found_session =
        let seen : as_record (live used (view issued_store (RedisKey.refresh_token first.jti)))
            ≡ (if ltb used (issued + ttl * 1000) then some issued_session else none) =
          rw
            (
              issue_tokens-refresh_key redis tokens ttl u context first issued s0 first.jti,
              eq_refl first.jti,
            )
            (live_session used issued ttl issued_session) in
        either (ltb used (issued + ttl * 1000)) (sym seen ∙ done.here)
      where
        either :
            (early : Bool) {r : SessionRecord}
            → (if early then some issued_session else none) ≡ some r
            → r ≡ issued_session
        either true h = ground (arith, h)
        either false h = absurd (cc h)

    same_user : done.user.id ≡ u.id
    same_user = (eq_iff done.user.id u.id).0 (find_first_holds (λ x. x.id == u.id) users done.known)

    s2-Rotated :
        Rotated redis tokens ttl u.id
          (value_else first.sid context.session_id)
          first.jti
          second.jti
          used
          s2
    s2-Rotated =
        let before = del (RedisKey.refresh_token first.jti) issued_store in
        let goes_on = going_on done.stored in
        let same_sid : done.stored.session_id ≡ value_else first.sid context.session_id =
          ap (λ (r : SessionRecord). r.session_id) found_session in
        let session =
          issue_tokens-session_key redis tokens ttl done.user goes_on second used before in
        record {
          current = session_of done.user goes_on second used;
          owner = same_user;
          jti = refl;
          old_gone = rw (
            done.store_after,
            issue_tokens-refresh_key redis tokens ttl done.user goes_on second used before
                first.jti,
            differs second.jti first.jti (λ e. apart (sym e)),
            view-del,
            eq_refl first.jti,
          );
          new_here = rw (
            done.store_after,
            issue_tokens-refresh_key redis tokens ttl done.user goes_on second used before
                second.jti,
            eq_refl second.jti,
          );
          session_here = rw done.store_after (
              subst₂
                (λ (user sid : String).
                  view (issue_tokens redis tokens ttl done.user goes_on second used before).0
                    (RedisKey.session user sid)
                  ≡ some (session_entry (session_of done.user goes_on second used) used ttl))
                same_user same_sid session);
        }

    -- A session was issued, its token was used once, and the tokens drawn differ. If the used
    -- token, still valid as a token, comes again, it is refused as revoked; and from then on the
    -- token that its first use gave is refused as well, whatever the users are by then.
    pub refresh_replay :
        (replayed at : ℕ) (third fourth : DrawnIds) (users' users'' : List AuthUser)
        (p : RefreshPayload)
        → read replayed issued_token ≡ some p
        → replayed ≤ at
        → let replay = refresh redis tokens ttl replayed issued_token third users' s2 in
          (replay.1 ≡ err session_revoked)
          × ((e : Error) × ((refresh redis tokens ttl at t2 fourth users'' replay.0).1 ≡ err e))
    refresh_replay replayed at third fourth users' users'' p says after =
        let first_payload = payload_of u context first in
        let mine : p ≡ first_payload =
          only_signed (read-sign replayed issued ttl first_payload) says in
        let gone : as_record (live replayed (view s2 (RedisKey.refresh_token first.jti))) ≡ none =
          rw s2-Rotated.old_gone in
        let says_first : read replayed issued_token ≡ some first_payload =
          says ∙ ap (λ (x : RefreshPayload). some x) mine in
        let revoked =
          refresh-read redis tokens ttl replayed issued_token first_payload third users' s2
            says_first
          ∙ refresh_payload-dead redis tokens ttl replayed first_payload third users' s2 gone in
        let dead =
          revoke_session-Rotated redis tokens ttl u.id (value_else first.sid context.session_id)
            first.jti second.jti used replayed at s2 s2-Rotated apart after in
        rw revoked (
          refl,
          rw done.token_after (
              refresh-sign_dead redis tokens ttl at used
                (payload_of done.user (going_on done.stored) second) fourth users'' _ dead),
        )
      where
        only_signed :
            {o : Option RefreshPayload} {x y : RefreshPayload}
            → (o ≡ some x) ⊎ (o ≡ none)
            → o ≡ some y
            → y ≡ x
        only_signed (inl h) k = ground (arith, h, k)
        only_signed (inr h) k = absurd (cc (h, k))
