-- ===== src/Auth/Sessions/Revoked.antt =====
-- After all sessions of a user were revoked.
use sosedi_app.Prelude.{
  Bool-cases, List, String, arith, eqb, find_first-update_many, find_first_holds, inl, inr, num_eq,
  some, sym, true, ℕ, ◌+◌, ◌==◌, ◌∙◌, ◌≡◌, ◌≤◌,
}
use sosedi_app.Auth.{AuthUser, Redis}
use sosedi_app.Auth.Sessions.{
  DrawnIds, RefreshPayload, Tokens, next_version, refresh, refresh_payload, revoke_all_sessions,
  user_by_id,
}
use sosedi_app.Auth.Sessions.Dead.{refresh-read}
use sosedi_app.Auth.Sessions.Issued.{refresh_payload-Refreshed}
use sosedi_app.Domain.Failure.{Error, Result-cases, err}
use sosedi_app.Reviews.{older}

module _ (redis : Redis) (tokens : Tokens) (ttl : ℕ) where
  open redis use {Store}
  open tokens use {Token, read}

  revoked_user :
      (now : ℕ) (users : List AuthUser) (s : Store) (user : String) (u : AuthUser)
      → user_by_id user users ≡ some u
      → user_by_id user (revoke_all_sessions redis tokens ttl now user users s).0
        ≡ some (next_version redis tokens ttl u)
  unfolding revoke_all_sessions
  revoked_user now users s user u known =
      rw (revoke_all_sessions, known)
        (find_first-update_many (λ x. x.id == user) (λ x. x.id == user)
            (next_version redis tokens ttl) users
            (λ x. elim (Bool-cases (x.id == user)) [ inl t ↦ rw t t | inr f ↦ rw f f ])
          ∙ rw (known, find_first_holds (λ x. x.id == user) users known))

  -- Once all sessions of a user are revoked, no refresh token of an earlier version is accepted,
  -- at any time and whatever the store then holds.
  pub refresh_revoked :
      (now at : ℕ) (users : List AuthUser) (s later_store : Store) (t : Token) (p : RefreshPayload)
      (u : AuthUser) (drawn : DrawnIds)
      → user_by_id p.sub users ≡ some u
      → p.session_version ≤ u.session_version
      → read at t ≡ some p
      → (e : Error) × ((refresh redis tokens ttl at t drawn
            (revoke_all_sessions redis tokens ttl now p.sub users s).0
            later_store).1
          ≡ err e)
  refresh_revoked now at users s later_store t p u drawn known old says =
      let users' = (revoke_all_sessions redis tokens ttl now p.sub users s).0 in
      rw (refresh-read redis tokens ttl at t p drawn users' later_store says)
        (elim (Result-cases (refresh_payload redis tokens ttl at p drawn users' later_store).1) [
          | inl refused ↦ refused
          | inr (t', accepted) ↦
              let done =
                refresh_payload-Refreshed redis tokens ttl at p drawn users' later_store accepted in
              let bumped : some done.user ≡ some (next_version redis tokens ttl u) =
                sym done.known ∙ revoked_user now users s p.sub u known in
              absurd (too_old done.user u bumped done.same_version old)
        ])
    where
      too_old :
          (x y : AuthUser)
          → some x ≡ some (next_version redis tokens ttl y)
          → eqb p.session_version x.session_version ≡ true
          → p.session_version ≤ y.session_version
          → ⊥
      too_old x y same version older =
          let v : x.session_version ≡ y.session_version + 1 = ground (arith, same) in
          absurd (omega (arith, num_eq _ _ version))
