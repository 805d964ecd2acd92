-- ===== src/Prelude/Sort.antt =====
-- Sorting as `orderBy` does, by a strict order, and the facts on sorted rows that the pages of a
-- listing rest on.
use mathlib.Core.Path.{◌≡◌, refl, sym, ap}
use mathlib.Core.Logic.{inl, inr}
use mathlib.Core.Bool.{Bool, true, false}
use mathlib.Core.List.{List, [], ◌∷◌, ◌++◌}
use sosedi_app.Prelude.Tests.{if◌then◌else◌, Bool-cases}
use sosedi_app.Prelude.Lists.{All, All-mono, Pairwise}
use sosedi_app.Prelude.Rows.{filter_rows}

module _ {ℓ} {A : Type ℓ} (less : A → A → Bool) where
  abbrev pub insert_by : A → List A → List A
  insert_by x [] = x ∷ []
  insert_by x (y ∷ ys) = let rest = insert_by x ys in if less x y then x ∷ y ∷ ys else y ∷ rest

  abbrev pub sort_by : List A → List A
  sort_by [] = []
  sort_by (x ∷ xs) = insert_by x (sort_by xs)

  abbrev pub Ascends : List A → Type 0
  Ascends = Pairwise (λ x y. less x y ≡ true)

  -- Any two rows are ordered one way, at different places.
  abbrev pub Comparable : A → A → Type 0
  Comparable x y = less x y ≡ false → less y x ≡ true

  All-insert_by {κ} :
      (P : A → Type κ) (x : A) (ys : List A) → P x → All P ys → All P (insert_by x ys)
  All-insert_by P x [] px h = (px, tt)
  All-insert_by P x (y ∷ ys) px h = elim (Bool-cases (less x y)) [
    | inl t ↦ rw t (px, h)
    | inr t ↦ rw t (h.0, All-insert_by P x ys px h.1)
  ]

  pub All-sort_by {κ} : (P : A → Type κ) (xs : List A) → All P xs → All P (sort_by xs)
  All-sort_by P [] h = tt
  All-sort_by P (x ∷ xs) h = All-insert_by P x (sort_by xs) h.0 (All-sort_by P xs h.1)

  -- A row that the filter drops may be inserted anywhere.
  pub filter_rows-insert_by :
      (p : A → Bool) (x : A) (ys : List A)
      → p x ≡ false
      → filter_rows p (insert_by x ys) ≡ filter_rows p ys
  filter_rows-insert_by p x [] h = rw h
  filter_rows-insert_by p x (y ∷ ys) h = elim (Bool-cases (less x y)) [
    | inl t ↦ rw (t, h)
    | inr t ↦ rw (t, filter_rows-insert_by p x ys h)
  ]

  module _ (trans : (x y z : A) → less x y ≡ true → less y z ≡ true → less x z ≡ true) where
    Ascends-insert_by :
        (x : A) (ys : List A) → All (Comparable x) ys → Ascends ys → Ascends (insert_by x ys)
    Ascends-insert_by x [] h up = (tt, tt)
    Ascends-insert_by x (y ∷ ys) h up = elim (Bool-cases (less x y)) [
      | inl t ↦ rw t (
        (
          t,
          All-mono (λ z. less y z ≡ true) (λ z. less x z ≡ true) ys (λ z yz. trans x y z t yz) up.0,
        ),
        up,
      )
      | inr t ↦
          rw t (
            All-insert_by (λ z. less y z ≡ true) x ys (h.0 t) up.0,
            Ascends-insert_by x ys h.1 up.1,
          )
    ]

    pub Ascends-sort_by : (xs : List A) → Pairwise Comparable xs → Ascends (sort_by xs)
    Ascends-sort_by [] h = tt
    Ascends-sort_by (x ∷ xs) h =
        Ascends-insert_by x (sort_by xs) (All-sort_by (Comparable x) xs h.0)
          (Ascends-sort_by xs h.1)

  -- In a list that ascends strictly, what stands after a row is what is greater than it.
  module _ (trans : (x y z : A) → less x y ≡ true → less y z ≡ true → less x z ≡ true)
      (irrefl : (x : A) → less x x ≡ false) where
    keeps_every :
        (c : A) (ys : List A) → All (λ y. less c y ≡ true) ys → filter_rows (less c) ys ≡ ys
    keeps_every c [] h = refl
    keeps_every c (y ∷ ys) h = rw (h.0, keeps_every c ys h.1)

    not_above : (x y : A) → less x y ≡ true → less y x ≡ false
    not_above x y h = elim (Bool-cases (less y x)) [
      | inl t ↦ absurd (cc (irrefl x, trans x y x h t))
      | inr t ↦ t
    ]

    pub filter_rows-after :
        (xs : List A) (c : A) (ys : List A)
        → Ascends (xs ++ c ∷ ys)
        → filter_rows (less c) (xs ++ c ∷ ys) ≡ ys
    filter_rows-after [] c ys up = rw (irrefl c) (keeps_every c ys up.0)
    filter_rows-after (x ∷ xs) c ys up =
        rw (not_above x c (below xs up.0)) (filter_rows-after xs c ys up.1)
      where
        below : (zs : List A) → All (λ z. less x z ≡ true) (zs ++ c ∷ ys) → less x c ≡ true
        below [] h = h.0
        below (z ∷ zs) h = below zs h.1

  insert_by_front : (x : A) (ys : List A) → All (λ y. less x y ≡ true) ys → insert_by x ys ≡ x ∷ ys
  insert_by_front x [] h = refl
  insert_by_front x (y ∷ ys) h = rw h.0

  All-filter_rows {κ} :
      (P : A → Type κ) (p : A → Bool) (ys : List A) → All P ys → All P (filter_rows p ys)
  All-filter_rows P p [] h = tt
  All-filter_rows P p (y ∷ ys) h = elim (Bool-cases (p y)) [
    | inl t ↦ rw t (h.0, All-filter_rows P p ys h.1)
    | inr t ↦ rw t (All-filter_rows P p ys h.1)
  ]

  pub Pairwise-filter_rows {κ} :
      (R : A → A → Type κ) (p : A → Bool) (ys : List A)
      → Pairwise R ys
      → Pairwise R (filter_rows p ys)
  Pairwise-filter_rows R p [] h = tt
  Pairwise-filter_rows R p (y ∷ ys) h = elim (Bool-cases (p y)) [
    | inl t ↦ rw t (All-filter_rows (R y) p ys h.0, Pairwise-filter_rows R p ys h.1)
    | inr t ↦ rw t (Pairwise-filter_rows R p ys h.1)
  ]

  -- Filtering and sorting may be exchanged.
  module _ (trans : (x y z : A) → less x y ≡ true → less y z ≡ true → less x z ≡ true)
      (p : A → Bool) where
    filter_rows-kept :
        (x : A) (ys : List A)
        → p x ≡ true
        → Ascends ys
        → filter_rows p (insert_by x ys) ≡ insert_by x (filter_rows p ys)
    filter_rows-kept x [] px up = rw px
    filter_rows-kept x (y ∷ ys) px up = elim (Bool-cases (less x y)) [
      | inl t ↦ elim (Bool-cases (p y)) [
        | inl py ↦ rw (t, px, py, t)
        | inr py ↦
            rw (t, px, py)
              (sym (
                insert_by_front x (filter_rows p ys) (
                  All-filter_rows (λ z. less x z ≡ true) p ys
                    (All-mono (λ z. less y z ≡ true) (λ z. less x z ≡ true) ys
                      (λ z yz. trans x y z t yz) up.0))))
      ]
      | inr t ↦ elim (Bool-cases (p y)) [
        | inl py ↦ rw (t, py, t) (ap (λ (zs : List A). y ∷ zs) (filter_rows-kept x ys px up.1))
        | inr py ↦ rw (t, py) (filter_rows-kept x ys px up.1)
      ]
    ]

    pub filter_rows-sort_by :
        (xs : List A)
        → Pairwise Comparable xs
        → filter_rows p (sort_by xs) ≡ sort_by (filter_rows p xs)
    filter_rows-sort_by [] h = refl
    filter_rows-sort_by (x ∷ xs) h = elim (Bool-cases (p x)) [
      | inl t ↦
          rw (t, ← filter_rows-sort_by xs h.1)
            (filter_rows-kept x (sort_by xs) t (Ascends-sort_by trans xs h.1))
      | inr t ↦ rw (t, filter_rows-insert_by p x (sort_by xs) t) (filter_rows-sort_by xs h.1)
    ]
