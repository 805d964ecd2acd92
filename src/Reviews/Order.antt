-- ===== src/Reviews/Order.antt =====
-- The order of the public reviews, and the row that a cursor names.
use sosedi_app.Prelude.{
  All, All-zip, Bool, Bool-cases, List, Pairwise, Pairwise-mono, String, [], arith, eq_iff, eq_refl,
  false, filter_rows, find_first, inl, inr, some, subst, sym, true, ℕ, ◌++◌, ◌∷◌, ◌≡◌, ◌≢◌,
}
use sosedi_app.Prelude.Sort.{
  All-sort_by, Ascends, Ascends-sort_by, Comparable, Pairwise-filter_rows, filter_rows-after,
  filter_rows-sort_by, sort_by,
}
use sosedi_app.Reviews.{Review, ReviewDb}
use sosedi_app.Reviews.Pages.{after_cursor, is_cursor, is_visible, newer, visible}

-- What the database promises of the order of identifiers.
pub record IdOrder (before : String → String → Bool) : Type 0 where
  pub trans : (a b c : String) → before a b ≡ true → before b c ≡ true → before a c ≡ true
  pub irrefl : (a : String) → before a a ≡ false
  pub total : (a b : String) → a ≢ b → before a b ≡ false → before b a ≡ true

abbrev pub DistinctIds : ReviewDb → Type 0
DistinctIds db = Pairwise (λ (r s : Review). r.id ≢ s.id) db.reviews

-- The visible reviews, the newest first.
abbrev pub newest_first : (String → String → Bool) → String → ℕ → ReviewDb → List Review
newest_first before target now db = sort_by (newer before) (visible target now db)

abbrev pub After : (String → String → Bool) → Review → Review → Type 0
After before r s = newer before r s ≡ true

module _ (before : String → String → Bool) (order : IdOrder before) where
  newer_trans : (r s t : Review) → After before r s → After before s t → After before r t
  newer_trans r s t p q = ground (arith, order.trans t.id s.id r.id)

  newer_irrefl : (r : Review) → newer before r r ≡ false
  newer_irrefl r = ground (arith, order.irrefl r.id)

  newer_total : (r s : Review) → r.id ≢ s.id → newer before r s ≡ false → After before s r
  newer_total r s apart p = ground (arith, order.total s.id r.id (λ e. apart (sym e)))

  module _ (target : String) (now : ℕ) (db : ReviewDb) (distinct : DistinctIds db) where
    visible-Comparable : Pairwise (Comparable (newer before)) (visible target now db)
    visible-Comparable =
        Pairwise-filter_rows (newer before) (Comparable (newer before)) (is_visible target now)
          db.reviews
          (Pairwise-mono (λ (r s : Review). r.id ≢ s.id) (Comparable (newer before)) db.reviews
            newer_total distinct)

    pub newest_first-Ascends : Ascends (newer before) (newest_first before target now db)
    newest_first-Ascends =
        Ascends-sort_by (newer before) newer_trans (visible target now db) visible-Comparable

    -- The rows behind a row of the listing are those that the query for its cursor returns.
    pub after_cursor-behind :
        (xs : List Review) (c : Review) (ys : List Review)
        → newest_first before target now db ≡ xs ++ c ∷ ys
        → sort_by (newer before) (after_cursor before (some c) (visible target now db)) ≡ ys
    after_cursor-behind xs c ys parts =
        rw
          (
            ← filter_rows-sort_by (newer before) newer_trans (newer before c)
                (visible target now db) visible-Comparable,
            parts,
          )
          (filter_rows-after (newer before) newer_trans newer_irrefl xs c ys
            (subst (Ascends (newer before)) parts newest_first-Ascends))

module _ (target : String) (now : ℕ) where
  -- A visible row is found by its identifier.
  found_by_id :
      (rows : List Review)
      → Pairwise (λ (r s : Review). r.id ≢ s.id) rows
      → All
          (λ r.
            is_visible target now r ≡ true → find_first (is_cursor target now r.id) rows ≡ some r)
          rows
  found_by_id [] h = tt
  found_by_id (x ∷ xs) h = (
    λ seen. rw (eq_refl x.id, seen),
    All-zip (λ r. x.id ≢ r.id)
        (λ r. is_visible target now r ≡ true → find_first (is_cursor target now r.id) xs ≡ some r)
        (λ r.
          is_visible target now r ≡ true → find_first (is_cursor target now r.id) (x ∷ xs) ≡ some r)
        xs (λ r apart found seen. ground (arith, eq_iff x.id r.id, found seen)) h.0
        (found_by_id xs h.1),
  )

  kept_rows {κ} :
      (P : Review → Type κ) (rows : List Review)
      → All (λ r. is_visible target now r ≡ true → P r) rows
      → All P (filter_rows (is_visible target now) rows)
  kept_rows P [] h = tt
  kept_rows P (x ∷ xs) h = elim (Bool-cases (is_visible target now x)) [
    | inl t ↦ rw t (h.0 t, kept_rows P xs h.1)
    | inr t ↦ rw t (kept_rows P xs h.1)
  ]

  -- Each row of the listing is found as a cursor.
  pub newest_first-found :
      (before : String → String → Bool) (db : ReviewDb)
      → DistinctIds db
      → All
          (λ r. find_first (is_cursor target now r.id) db.reviews ≡ some r)
          (newest_first before target now db)
  newest_first-found before db distinct =
      All-sort_by (newer before) _ (visible target now db)
        (kept_rows _ db.reviews (found_by_id db.reviews distinct))
