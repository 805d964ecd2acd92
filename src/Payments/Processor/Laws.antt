-- ===== src/Payments/Processor/Laws.antt =====
-- The leases of operations, and the delays between attempts.
use native.Mathlib.Nat.{pow-le-pow_right, one-le-pow}
use sosedi_app.Prelude.{
  All-trivial, All-update_with, Option, Option-cases, Pairwise, String, String-cases, arith, eq_iff,
  false, find_first, find_first_absent, find_first_holds, find_first_only, inl, inr, min, none,
  refl, some, subst, sym, true, update_many, update_row, ℕ, ◌*◌, ◌+◌, ◌-◌, ◌<◌, ◌^◌, ◌∙◌, ◌≡◌, ◌≢◌,
  ◌≤◌,
}
use sosedi_app.Domain.{Db, DepositOperation}
use sosedi_app.Payments.Processor.{claim, claimed_row, claims, retry_delay}

scaled :
    (a b : ℕ)
    → 1 ≤ a
    → a ≤ b
    → (30000 ≤ min (30000 * a) 3600000)
      × (min (30000 * a) 3600000 ≤ min (30000 * b) 3600000)
      × (min (30000 * b) 3600000 ≤ 3600000)
scaled a b h g = (omega arith, omega arith, omega arith)

-- The delay before a further attempt is at least half a minute and at most an hour, and it never
-- falls as the attempts go on.
pub retry_delay_bounded :
    (n m : ℕ)
    → n ≤ m
    → (30000 ≤ retry_delay n) × (retry_delay n ≤ retry_delay m) × (retry_delay m ≤ 3600000)
unfolding retry_delay
retry_delay_bounded n m h =
    scaled (2 ^ min (n - 1) 10) (2 ^ min (m - 1) 10) (one-le-pow (min (n - 1) 10) 2 (omega arith))
      (pow-le-pow_right (omega arith) (omega arith))

-- Where no two operations have one identifier, a claimed operation cannot be claimed again until its
-- lease of a minute is over.
pub claim_exclusive :
    (k : String) (now later : ℕ) (db db' : Db) (o : DepositOperation)
    → Pairwise (λ p q. p.id ≢ q.id) db.operations
    → claim k now db ≡ some (db', o)
    → later < now + 60000
    → claim k later db' ≡ none
unfolding claim
claim_exclusive k now later db db' o apart e early =
    elim (Option-cases (find_first (claims k now) db.operations)) [
      | inl missing ↦ absurd (cc (rw (claim, missing) at e))
      | inr (p, found) ↦
          let written : db'.operations
              ≡ update_many (claims k now) (claimed_row now) db.operations =
            operations_of (rw (claim, found) at e) in
          rw (claim, absent p found written) refl
    ]
  where
    operations_of :
        {x : Db} {p : DepositOperation}
        → ◌≡◌ {A = Option (Db × DepositOperation)} (some (x, p)) (some (db', o))
        → db'.operations ≡ x.operations
    operations_of h = ground arith

    held : (x : DepositOperation) → claims k later (claimed_row now x) ≡ false
    held x = ground arith

    named : (p : DepositOperation) → claims k now p ≡ true → p.id ≡ k
    named p t = ground (arith, eq_iff p.id k)

    elsewhere :
        (x : DepositOperation)
        → x.id ≢ k
        → claims k later (update_row (claims k now) (claimed_row now) x) ≡ false
    elsewhere x other = ground (arith, eq_iff x.id k)

    row :
        (p x : DepositOperation)
        → claims k now p ≡ true
        → (x.id ≡ p.id → x ≡ p)
        → claims k later (update_row (claims k now) (claimed_row now) x) ≡ false
    row p x t only = elim (String-cases x.id k) [
      | inl here ↦
          let same : claims k now x ≡ true =
            subst (λ y. claims k now y ≡ true) (sym (only (here ∙ sym (named p t)))) t in
          rw same (held x)
      | inr other ↦ elsewhere x other
    ]

    absent :
        (p : DepositOperation)
        → find_first (claims k now) db.operations ≡ some p
        → db'.operations ≡ update_many (claims k now) (claimed_row now) db.operations
        → find_first (claims k later) db'.operations ≡ none
    absent p found written = rw written (
        find_first_absent (claims k later) _ (
          All-update_with (λ x. x.id ≡ p.id → x ≡ p) (λ x. Unit {0}) (λ x. claims k later x ≡ false)
            (claims k now) (claimed_row now) db.operations
            (λ x only _. row p x (find_first_holds (claims k now) db.operations {x = p} found) only)
            (find_first_only (λ x. x.id) (claims k now) db.operations {r = p} apart found)
            (All-trivial db.operations)))
