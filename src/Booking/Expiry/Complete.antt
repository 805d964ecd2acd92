-- ===== src/Booking/Expiry/Complete.antt =====
-- The loop of `expirePending` in backend/src/booking/booking-expiry.service.ts, and its candidates.
use sosedi_app.Prelude.{
  All, All-mono, All-trivial, All-update_with, All-zip, Bool, Bool-cases, List, String, [], any,
  any_none, ap, arith, eq_iff, false, inl, inr, refl, subst, sym, true, update_row, ℕ, ◌&&◌, ◌+◌,
  ◌==◌, ◌||◌, ◌∙◌, ◌∷◌, ◌≡◌,
}
use sosedi_app.Booking.Confirm.{cancelled_row}
use sosedi_app.Booking.Confirm.Competition.{mentions_within}
use sosedi_app.Booking.Conflicts.{mentions}
use sosedi_app.Booking.Expiry.{
  booking_pending_timeout_reason, expire_all, expire_one, expire_pending, expired_tables,
  is_expired,
}
use sosedi_app.Booking.Expiry.Laws.{expire-cases}
use sosedi_app.Domain.{Booking, Db, booking_event, create_event}
use sosedi_app.Domain.Failure.{>>=-eq-ok, Error, Result, Result-cases, err, ok, ok-pair}

abbrev Awaits : ℕ → List String → Booking → Type 0
Awaits now ks x = is_expired now x ≡ true → mentions ks x.id ≡ true

-- One candidate leaves the others waiting.
expire_one-Awaits :
    (now : ℕ) (k : String) (ks : List String) (db db' : Db) (n : ℕ)
    → All (Awaits now (k ∷ ks)) db.bookings
    → expire_one now k db ≡ ok (db', n)
    → All (Awaits now ks) db'.bookings
unfolding expire_one
expire_one-Awaits now k ks db db' n waiting e =
    elim (Bool-cases (any (λ b. b.id == k && is_expired now b) db.bookings)) [
      | inr t ↦
          let same = sym (ok-pair (rw (expire_one, t) at e)).0 in
          rw same (
            All-zip (Awaits now (k ∷ ks)) (λ x. (x.id == k && is_expired now x) ≡ false)
              (Awaits now ks) db.bookings (λ x w none_here. passed x w none_here) waiting
              (any_none (λ b. b.id == k && is_expired now b) db.bookings t))
      | inl t ↦ elim (expire-cases now k db db' n e) [
        | inr s ↦ rw s.written (
            All-update_with (Awaits now (k ∷ ks)) (λ x. Unit {0}) (Awaits now ks)
              (λ b. b.id == k && is_expired now b) (cancelled_row booking_pending_timeout_reason)
              db.bookings (λ x w _. expired x w) waiting (All-trivial db.bookings))
        | inl s ↦ absurd (counted t e s.0)
      ]
    ]
  where
    passed :
        (x : Booking)
        → Awaits now (k ∷ ks) x
        → (x.id == k && is_expired now x) ≡ false
        → Awaits now ks x
    passed x w none_here late = other_id (mentions ks x.id) (w late) (not_here x late none_here)
      where
        not_here :
            (x : Booking)
            → is_expired now x ≡ true
            → (x.id == k && is_expired now x) ≡ false
            → k == x.id ≡ false
        not_here x late none_here =
            turned x.id (first (x.id == k) (is_expired now x) late none_here)
          where
            first : (p q : Bool) → q ≡ true → (p && q) ≡ false → p ≡ false
            first p q h g = ground arith

            turned : (i : String) → i == k ≡ false → k == i ≡ false
            turned i h = ground (arith, eq_iff i k, eq_iff k i)

        other_id : {p : Bool} (q : Bool) → (p || q) ≡ true → p ≡ false → q ≡ true
        other_id {p} q h g = ground arith

    expired :
        (x : Booking)
        → Awaits now (k ∷ ks) x
        → Awaits now ks (
            update_row
              (λ b. b.id == k && is_expired now b)
              (cancelled_row booking_pending_timeout_reason)
              x)
    expired x w = elim (Bool-cases (x.id == k && is_expired now x)) [
      | inl t ↦ rw t (λ late. absurd (cancelled_waits late))
      | inr t ↦ rw t (passed x w t)
    ]
      where
        cancelled_waits : ◌≡◌ {A = Bool} false true → ⊥
        cancelled_waits h = cc

    counted :
        any (λ b. b.id == k && is_expired now b) db.bookings ≡ true
        → expire_one now k db ≡ ok (db', n)
        → n ≡ 0
        → ⊥
    counted t e zero_count =
        let (db1, _, e1) =
          >>=-eq-ok
            (create_event (booking_event k "BOOKING_PENDING_TIMEOUT") (expired_tables now k db))
            (λ d. ok (d, 1)) (rw (expire_one, t) at e) in
        one_not_zero ((ok-pair e1).1 ∙ zero_count)
      where
        one_not_zero : ◌≡◌ {A = ℕ} 1 0 → ⊥
        one_not_zero h = omega arith

expire_all_complete :
    (now : ℕ) (ks : List String) (db db' : Db) (n m : ℕ)
    → All (Awaits now ks) db.bookings
    → expire_all now ks db n ≡ (db', ok m)
    → All (λ x. is_expired now x ≡ false) db'.bookings
unfolding expire_all
expire_all_complete now [] db db' n m waiting e =
    subst (λ d. All (λ x. is_expired now x ≡ false) d.bookings) (ap (λ p. p.0) e)
      (All-mono (Awaits now []) (λ x. is_expired now x ≡ false) db.bookings
        (λ x w. awaited_by_none (is_expired now x) w) waiting)
  where
    awaited_by_none : (b : Bool) → (b ≡ true → ◌≡◌ {A = Bool} false true) → b ≡ false
    awaited_by_none true h = absurd (cc (h refl))
    awaited_by_none false h = refl
expire_all_complete now (k ∷ ks) db db' n m waiting e = elim (Result-cases (expire_one now k db)) [
  | inl (error, h) ↦ absurd (failed (ap (λ p. p.1) (rw (expire_all, h) at e)))
  | inr ((db1, c), h) ↦
      expire_all_complete now ks db1 db' (n + c) m (expire_one-Awaits now k ks db db1 c waiting h)
        (rw (expire_all, h) at e)
]
  where
    failed : {error : Error} → ◌≡◌ {A = Result ℕ} (err error) (ok m) → ⊥
    failed h = cc

-- A run of the expiry that ends without an error leaves no request that is pending and expired.
pub expire_pending_complete :
    (now : ℕ) (db db' : Db) (n : ℕ)
    → expire_pending now db ≡ (db', ok n)
    → All (λ x. is_expired now x ≡ false) db'.bookings
unfolding expire_pending
expire_pending_complete now db db' n e =
    expire_all_complete now _ db db' 0 n (mentions_within (is_expired now) db.bookings _ (λ k h. h))
      e
