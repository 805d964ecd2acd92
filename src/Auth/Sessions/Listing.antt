-- ===== src/Auth/Sessions/Listing.antt =====
-- What the list of a user's sessions shows, while it drops the dead ones from the set.
use sosedi_app.Prelude.{
  All, Bool-cases, List, Option, Pairwise, String, [], ap, arith, if◌then◌else◌, inl, inr, refl,
  true, ℕ, ◌∙◌, ◌∷◌, ◌≡◌,
}
use sosedi_app.Prelude.Sort.{Ascends, Ascends-sort_by, Comparable, sort_by}
use sosedi_app.Auth.{Entry, Redis, RedisKey, as_members, as_record, live}
use sosedi_app.Auth.Sessions.{
  SessionResponse, Tokens, collect_sessions, list_sessions, owner_is, seen_later, session_response,
}
use sosedi_app.Auth.Sessions.Issued.{srem-other}

by_last_seen :
    (x y z : SessionResponse)
    → seen_later x y ≡ true
    → seen_later y z ≡ true
    → seen_later x z ≡ true
by_last_seen x y z h g = ground (arith, h, g)

either_way : (x y : SessionResponse) → Comparable seen_later x y
either_way x y h = ground (arith, h)

all_ordered : (xs : List SessionResponse) → Pairwise (Comparable seen_later) xs
all_ordered [] = tt
all_ordered (x ∷ xs) = (against xs, all_ordered xs)
  where
    against : (ys : List SessionResponse) → All (Comparable seen_later x) ys
    against [] = tt
    against (y ∷ ys) = (either_way x y, against ys)

-- The live sessions of a user among some identifiers, in their order, as one store shows them.
unfoldable pub own_sessions :
    ℕ → String → String → List String → (RedisKey → Option Entry) → List SessionResponse
own_sessions now user installation [] see = []
own_sessions now user installation (sid ∷ sids) see =
    let found = as_record (live now (see (RedisKey.session user sid))) in
    let rest = own_sessions now user installation sids see in
    if owner_is found user then session_response installation found rest else rest

module _ (redis : Redis) (tokens : Tokens) (ttl : ℕ) where
  open redis use {Store, view}

  -- The sessions shown do not depend on what is dropped on the way.
  collect_sessions-own :
      (now : ℕ) (user installation : String) (sids : List String) (s s0 : Store)
      → ((sid : String) → view s (RedisKey.session user sid) ≡ view s0 (RedisKey.session user sid))
      → (collect_sessions redis tokens ttl now user installation sids s).1
        ≡ own_sessions now user installation sids (view s0)
  unfolding collect_sessions own_sessions
  collect_sessions-own now user installation [] s s0 same = refl
  collect_sessions-own now user installation (sid ∷ sids) s s0 same =
      elim (Bool-cases
        (owner_is (as_record (live now (view s0 (RedisKey.session user sid)))) user)) [
          | inl fresh ↦
              rw (same sid, fresh)
                (ap
                  (session_response installation
                    (as_record (live now (view s0 (RedisKey.session user sid)))))
                  (collect_sessions-own now user installation sids s s0 same))
          | inr dead ↦
              rw (same sid, dead)
                (collect_sessions-own now user installation sids _ s0 (λ k.
                  srem-other redis tokens ttl now user sid (RedisKey.session user k) s refl
                  ∙ same k))
        ]

  -- The list of sessions is what stood in the store of the live sessions of the user, sorted, so
  -- that none was seen later than the one before it.
  pub list_sessions-Ascends :
      (now : ℕ) (user installation : String) (s : Store)
      → Ascends seen_later (list_sessions redis tokens ttl now user installation s).1
        × ((list_sessions redis tokens ttl now user installation s).1
            ≡ sort_by seen_later (
                own_sessions now user installation
                  (as_members (live now (view s (RedisKey.user_sessions user))))
                  (view s)))
  unfolding list_sessions
  list_sessions-Ascends now user installation s =
      let sids = as_members (live now (view s (RedisKey.user_sessions user))) in
      let found = (collect_sessions redis tokens ttl now user installation sids s).1 in
      (
        Ascends-sort_by seen_later by_last_seen found (all_ordered found),
        ap (sort_by seen_later) (collect_sessions-own now user installation sids s s (λ k. refl)),
      )
