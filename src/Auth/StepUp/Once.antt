-- ===== src/Auth/StepUp/Once.antt =====
-- How often, and for what, a step-up token serves.
use sosedi_app.Prelude.{
  Bool, Bool-cases, List, Option, String, arith, eq_iff, eq_refl, false, inl, inr, none, not,
  num_eq, refl, some, true, ℕ, ◌&&◌, ◌≡◌,
}
use sosedi_app.Auth.{AuthUser, Redis, RedisKey, as_step_up, live}
use sosedi_app.Auth.Sessions.{user_by_id}
use sosedi_app.Auth.StepUp.{
  StepUpPayload, StepUpTokens, consume_user_step_up_token, is_current_user, is_stored, payload_fits,
  user_step_up_ttl_seconds,
}
use sosedi_app.Domain.Failure.{Result, err, ok, step_up_required, throw_if, throw_if-ok}

module _ (redis : Redis) (tokens : StepUpTokens) where
  open redis use {Store, view, del, view-del}
  open tokens use {Token, sign, read, read-sign}

  -- What a successful use has found and written.
  record Served (now : ℕ) (p : StepUpPayload) (user purpose : String) (users : List AuthUser)
      (s s' : Store) : Type 0 where
    fits : payload_fits user purpose p ≡ true
    current : is_current_user p.session_version (user_by_id user users) ≡ true
    stored :
        is_stored user purpose p.session_version
          (as_step_up (live now (view s (RedisKey.user_step_up p.jti))))
        ≡ true
    gone : s' ≡ del (RedisKey.user_step_up p.jti) s

  refused : {x : Unit {0}} → ◌≡◌ {A = Result (Unit {0})} (err step_up_required) (ok x) → ⊥
  refused h = cc h

  -- Where nothing is kept for a token, it is refused.
  refused_without :
      (now signed : ℕ) (p : StepUpPayload) (user purpose : String) (users : List AuthUser)
      (s : Store)
      → view s (RedisKey.user_step_up p.jti) ≡ none
      → (consume_user_step_up_token redis tokens now
          (sign signed user_step_up_ttl_seconds p)
          user
          purpose
          users
          s).1
        ≡ err step_up_required
  unfolding consume_user_step_up_token
  refused_without now signed p user purpose users s nothing =
      elim (read-sign now signed user_step_up_ttl_seconds p) [
        | inr unread ↦ rw (consume_user_step_up_token, unread) refl
        | inl says ↦ elim (Bool-cases (payload_fits user purpose p)) [
          | inr other ↦ rw (consume_user_step_up_token, says, other) refl
          | inl fits ↦
              rw (consume_user_step_up_token, says, fits)
                (rw nothing
                  (throw_if_none (is_current_user p.session_version (user_by_id user users))))
        ]
      ]
    where
      throw_if_none :
          (b : Bool)
          → ◌≡◌ {A = Result (Unit {0})}
              (throw_if (not (b && false)) step_up_required)
              (err step_up_required)
      throw_if_none true = refl
      throw_if_none false = refl

  module _ (signed now : ℕ) (p : StepUpPayload) (user purpose : String) (users : List AuthUser)
      (s : Store) where
    abbrev used : Store × Result (Unit {0})
    used =
        consume_user_step_up_token redis tokens now (sign signed user_step_up_ttl_seconds p) user
          purpose users s

    consume-Served : used.1 ≡ ok tt → Served now p user purpose users s used.0
    unfolding consume_user_step_up_token
    consume-Served e = elim (read-sign now signed user_step_up_ttl_seconds p) [
      | inr unread ↦ absurd (refused (rw (consume_user_step_up_token, unread) at e))
      | inl says ↦ elim (Bool-cases (payload_fits user purpose p)) [
        | inr other ↦ absurd (refused (rw (consume_user_step_up_token, says, other) at e))
        | inl fits ↦
            let passed =
              throw_if-ok
                (not (
                  is_current_user p.session_version (user_by_id user users)
                  && is_stored user purpose p.session_version
                      (as_step_up (live now (view s (RedisKey.user_step_up p.jti))))))
                step_up_required (rw (consume_user_step_up_token, says, fits) at e) in
            rw (consume_user_step_up_token, says, fits)
              (record {
                fits = fits;
                current = ground (arith, passed);
                stored = ground (arith, passed);
                gone = refl;
              })
      ]
    ]

    -- A step-up token serves once: after a successful use, which was for the user, the purpose and
    -- the version of the user's sessions that it names, with the user neither blocked nor deleted,
    -- the same token is refused at any time, for any user and purpose.
    pub consume_step_up_once :
        (served : used.1 ≡ ok tt) (again : ℕ) (other other_purpose : String)
        (others : List AuthUser)
        → ((p.sub ≡ user)
            × (p.purpose ≡ purpose)
            × ((u : AuthUser) × (user_by_id user users ≡ some u)
                × (u.session_version ≡ p.session_version)
                × (u.is_blocked ≡ false)
                × (u.is_deleted ≡ false)))
          × ((consume_user_step_up_token redis tokens again
                (sign signed user_step_up_ttl_seconds p)
                other
                other_purpose
                others
                used.0).1
              ≡ err step_up_required)
    consume_step_up_once served again other other_purpose others =
        let done = consume-Served served in
        (
          (
            (eq_iff p.sub user).0 (ground (arith, done.fits)),
            (eq_iff p.purpose purpose).0 (ground (arith, done.fits)),
            current_user p.session_version (user_by_id user users) done.current,
          ),
          refused_without again signed p other other_purpose others used.0 (
              rw
                (
                  done.gone,
                  view-del (RedisKey.user_step_up p.jti) (RedisKey.user_step_up p.jti) s,
                  eq_refl p.jti,
                )
                refl),
        )
      where
        current_user :
            (version : ℕ) (o : Option AuthUser)
            → is_current_user version o ≡ true
            → (u : AuthUser) × (o ≡ some u)
              × (u.session_version ≡ version)
              × (u.is_blocked ≡ false)
              × (u.is_deleted ≡ false)
        current_user version none h = cc
        current_user version (some u) h =
            (u, refl, num_eq _ _ (ground (arith, h)), ground (arith, h), ground (arith, h))
