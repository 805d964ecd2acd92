-- ===== src/Auth/Otp/Counter.antt =====
-- The counter of wrong codes of a phone, within half an hour of a moment.
use sosedi_app.Prelude.{
  Bool-cases, Option, Option-cases, String, arith, eq_refl, eqb, false, inl, inr, ltb, none, refl,
  some, suc, true, zero, ℕ, ◌*◌, ◌+◌, ◌<◌, ◌≡◌, ◌≤◌,
}
use sosedi_app.Auth.{Entry, Redis, RedisKey, as_number, counted, kept_expiry, live}
use sosedi_app.Auth.Otp.{block_phone, incr_with_expire, otp_block_seconds, otp_is_blocked}
use sosedi_app.Reviews.{later}

live_entry :
    (at : ℕ) (e : Entry) (t : ℕ) → e.expires_at ≡ some t → at < t → live at (some e) ≡ some e
live_entry at e t until early =
    let open_yet : ltb at t ≡ true = ground arith in rw (until, open_yet)

-- What is expired stays expired.
pub expired_later :
    (from at : ℕ) (e : Option Entry) → live from e ≡ none → from ≤ at → live at e ≡ none
expired_later from at none gone later = refl
expired_later from at (some e) gone later = elim (Option-cases e.expires_at) [
  | inl never ↦ absurd (clash (rw never at gone))
  | inr (t, until) ↦ elim (Bool-cases (ltb at t)) [
    | inl early ↦
        let open_yet : ltb from t ≡ true = ground arith in
        absurd (clash (rw (until, open_yet) at gone))
    | inr late ↦ rw (until, late)
  ]
]
  where
    clash : {x : Entry} → ◌≡◌ {A = Option Entry} (some x) none → ⊥
    clash h = cc h

module _ (redis : Redis) (phone : String) (from : ℕ) where
  open redis use {Store, view, put, del, view-put, view-del}

  -- Within half an hour of `from`.
  abbrev pub InWindow : ℕ → Type 0
  InWindow now = (from ≤ now) × (now < from + otp_block_seconds * 1000)

  abbrev pub fail_entry : ℕ → Store → Option Entry
  fail_entry now s = live now (view s (RedisKey.otp_fail phone))

  -- The counter of failures stands at `n`, and lasts for the window.
  pub record Failing (n : ℕ) (s : Store) : Type 0 where
    pub counts : (now : ℕ) → InWindow now → as_number (fail_entry now s) ≡ n
    pub lasts :
        (now : ℕ)
        → InWindow now
        → 0 < n
        → (t : ℕ) × (kept_expiry (fail_entry now s) ≡ some t)
          × (from + otp_block_seconds * 1000 ≤ t)

  -- The phone is blocked for the window.
  abbrev pub Blocked : Store → Type 0
  Blocked s = (now : ℕ) → InWindow now → otp_is_blocked redis now phone s ≡ true

  -- The counter after one more failure.
  abbrev pub counted_store : ℕ → Store → Store
  counted_store now s = (incr_with_expire redis now (RedisKey.otp_fail phone) otp_block_seconds s).0

  counted_view :
      (now : ℕ) (s : Store)
      → view (counted_store now s) (RedisKey.otp_fail phone)
        ≡ some (counted now otp_block_seconds (fail_entry now s))
  counted_view now s = rw (view-put, eq_refl phone)

  -- The entry that a failure in the window leaves lasts for the window.
  counted_lasts :
      (n now : ℕ) (s : Store)
      → Failing n s
      → InWindow now
      → (t : ℕ) × ((counted now otp_block_seconds (fail_entry now s)).expires_at ≡ some t)
        × (from + otp_block_seconds * 1000 ≤ t)
  counted_lasts zero now s failing w =
      (now + otp_block_seconds * 1000, rw (failing.counts now w), omega arith)
  counted_lasts (suc n) now s failing w =
      let (t, kept, long) = failing.lasts now w (omega arith) in
      let more : eqb (suc n + 1) 1 ≡ false = ground arith in
      (t, rw (failing.counts now w, more) kept, long)

  counted_seen :
      (n now at : ℕ) (s : Store)
      → Failing n s
      → InWindow now
      → InWindow at
      → fail_entry at (counted_store now s)
        ≡ some (counted now otp_block_seconds (fail_entry now s))
  counted_seen n now at s failing w v =
      let (t, kept, long) = counted_lasts n now s failing w in
      rw (counted_view now s)
        (live_entry at (counted now otp_block_seconds (fail_entry now s)) t kept (omega arith))

  pub Failing-counted :
      (n now : ℕ) (s : Store) → Failing n s → InWindow now → Failing (suc n) (counted_store now s)
  Failing-counted n now s failing w = record {
    counts = λ at v. rw (counted_seen n now at s failing w v, failing.counts now w) (omega arith);
    lasts = λ at v positive.
        let (t, kept, long) = counted_lasts n now s failing w in
        (t, rw (counted_seen n now at s failing w v) kept, long);
  }

  pub Blocked-block : (now : ℕ) (s : Store) → InWindow now → Blocked (block_phone redis now phone s)
  Blocked-block now s w at v =
      let early : ltb at (now + otp_block_seconds * 1000) ≡ true = ground arith in
      rw (view-del, view-del, view-put, eq_refl phone, early)
