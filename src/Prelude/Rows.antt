-- ===== src/Prelude/Rows.antt =====
-- A database table as a list of rows, the newest first, with the queries that the code makes:
-- `findFirst`, `count`, `updateMany` and the check of a unique column.
use Prim.Native.Nat.{ℕ, suc}
use mathlib.Core.Path.{◌≡◌, refl, subst, sym, ap, ◌∙◌}
use mathlib.Core.Logic.{inl, inr, ◌≢◌}
use mathlib.Core.Bool.{Bool, true, false}
use mathlib.Core.Option.{Option, none, some}
use mathlib.Core.List.{List, [], ◌∷◌}
use native.Mathlib.Omega.{arith}
use sosedi_app.Prelude.Tests.{if◌then◌else◌, is_some, Bool-cases}
use sosedi_app.Prelude.Lists.{All, All-mono, Pairwise, any}

module _ {ℓ} {A : Type ℓ} where
  abbrev pub find_first : (A → Bool) → List A → Option A
  find_first p [] = none
  find_first p (x ∷ xs) = if p x then some x else find_first p xs

  abbrev pub count_where : (A → Bool) → List A → ℕ
  count_where p [] = 0
  count_where p (x ∷ xs) = let n = count_where p xs in if p x then suc n else n

  abbrev pub update_row : (A → Bool) → (A → A) → A → A
  update_row p f x = if p x then f x else x

  abbrev pub update_many : (A → Bool) → (A → A) → List A → List A
  update_many p f [] = []
  update_many p f (x ∷ xs) = update_row p f x ∷ update_many p f xs

  abbrev pub delete_many : (A → Bool) → List A → List A
  delete_many p [] = []
  delete_many p (x ∷ xs) = let rest = delete_many p xs in if p x then rest else x ∷ rest

  abbrev pub filter_rows : (A → Bool) → List A → List A
  filter_rows p [] = []
  filter_rows p (x ∷ xs) = let rest = filter_rows p xs in if p x then x ∷ rest else rest

  pub find_first_holds :
      (p : A → Bool) (xs : List A) {x : A} → find_first p xs ≡ some x → p x ≡ true
  find_first_holds p [] e = cc
  find_first_holds p (y ∷ xs) {x} e = elim (Bool-cases (p y)) [
    | inl h ↦ ground arith
    | inr h ↦ find_first_holds p xs {x = x} (ground arith)
  ]

  -- No row is found, and none passes the test.
  pub find_first_none :
      (p : A → Bool) (xs : List A) → is_some (find_first p xs) ≡ false → All (λ x. p x ≡ false) xs
  find_first_none p [] e = tt
  find_first_none p (y ∷ xs) e = elim (Bool-cases (p y)) [
    | inl h ↦ ground arith
    | inr h ↦ (h, find_first_none p xs (ground arith))
  ]

  pub any_none : (p : A → Bool) (xs : List A) → any p xs ≡ false → All (λ x. p x ≡ false) xs
  any_none p [] e = tt
  any_none p (y ∷ xs) e = (ground arith, any_none p xs (ground arith))

  pub find_first-All {κ} :
      (P : A → Type κ) (p : A → Bool) (xs : List A) {x : A}
      → All P xs
      → find_first p xs ≡ some x
      → P x
  find_first-All P p [] h e = absurd (cc e)
  find_first-All P p (y ∷ xs) {x} h e = elim (Bool-cases (p y)) [
    | inl t ↦ let same : y ≡ x = ground arith in subst P same h.0
    | inr t ↦ find_first-All P p xs {x = x} h.1 (ground arith)
  ]

  pub All-update_many {κ} :
      (P : A → Type κ) (p : A → Bool) (f : A → A) (xs : List A)
      → ((x : A) → P x → P (update_row p f x))
      → All P xs
      → All P (update_many p f xs)
  All-update_many P p f [] keep h = tt
  All-update_many P p f (x ∷ xs) keep h = (keep x h.0, All-update_many P p f xs keep h.1)

  -- Two updated rows are related, if any two rows with the same facts are.
  pub Pairwise-update_many {κ μ} :
      (R : A → A → Type κ) (Q : A → Type μ) (p : A → Bool) (f : A → A) (xs : List A)
      → ((x y : A) → Q x → Q y → R x y → R (update_row p f x) (update_row p f y))
      → All Q xs
      → Pairwise R xs
      → Pairwise R (update_many p f xs)
  Pairwise-update_many R Q p f [] keep q h = tt
  Pairwise-update_many R Q p f (x ∷ xs) keep q h =
      (row xs q.1 h.0, Pairwise-update_many R Q p f xs keep q.1 h.1)
    where
      row :
          (ys : List A) → All Q ys → All (R x) ys → All (R (update_row p f x)) (update_many p f ys)
      row [] u v = tt
      row (y ∷ ys) u v = (keep x y q.0 u.0 v.0, row ys u.1 v.1)

  -- Where the keys of the rows differ, no other row has the key of the one that is found.
  pub find_first_only {κ} :
      {K : Type κ} (key : A → K) (p : A → Bool) (xs : List A) {r : A}
      → Pairwise (λ x y. key x ≢ key y) xs
      → find_first p xs ≡ some r
      → All (λ x. key x ≡ key r → x ≡ r) xs
  find_first_only key p [] h e = tt
  find_first_only key p (y ∷ xs) {r} h e = elim (Bool-cases (p y)) [
    | inl t ↦
        let same : y ≡ r = ground arith in
        (
          λ _. same,
          All-mono (λ x. key y ≢ key x) (λ x. key x ≡ key r → x ≡ r) xs
              (λ x apart here. absurd (apart (ap key same ∙ sym here))) h.0,
        )
    | inr t ↦ (
      λ here. absurd (find_first-All (λ x. key y ≢ key x) p xs {x = r} h.0 (ground arith) here),
      find_first_only key p xs {r = r} h.1 (ground arith),
    )
  ]

  -- A fact of every row gives a fact of every updated row.
  pub All-update_with {κ μ ν} :
      (Q : A → Type κ) (P : A → Type μ) (S : A → Type ν) (p : A → Bool) (f : A → A) (xs : List A)
      → ((x : A) → Q x → P x → S (update_row p f x))
      → All Q xs
      → All P xs
      → All S (update_many p f xs)
  All-update_with Q P S p f [] keep q h = tt
  All-update_with Q P S p f (x ∷ xs) keep q h =
      (keep x q.0 h.0, All-update_with Q P S p f xs keep q.1 h.1)

  -- An update that the test does not see changes only the row that is found.
  pub find_first-update_many :
      (p q : A → Bool) (f : A → A) (xs : List A)
      → ((x : A) → p (update_row q f x) ≡ p x)
      → find_first p (update_many q f xs)
        ≡ elim (find_first p xs) [ none ↦ none | some x ↦ some (update_row q f x) ]
  find_first-update_many p q f [] same = refl
  find_first-update_many p q f (x ∷ xs) same = elim (Bool-cases (p x)) [
    | inl t ↦ rw (same x, t)
    | inr t ↦ rw (same x, t, find_first-update_many p q f xs same)
  ]

  pub All-delete_many {κ} :
      (P : A → Type κ) (p : A → Bool) (xs : List A) → All P xs → All P (delete_many p xs)
  All-delete_many P p [] h = tt
  All-delete_many P p (x ∷ xs) h = elim (Bool-cases (p x)) [
    | inl t ↦ rw t (All-delete_many P p xs h.1)
    | inr t ↦ rw t (h.0, All-delete_many P p xs h.1)
  ]

  pub find_first_absent :
      (p : A → Bool) (xs : List A) → All (λ x. p x ≡ false) xs → find_first p xs ≡ none
  find_first_absent p [] h = refl
  find_first_absent p (x ∷ xs) h = rw h.0 (find_first_absent p xs h.1)

  pub All-update_every {κ} :
      (P : A → Type κ) (p : A → Bool) (f : A → A) (xs : List A)
      → ((x : A) → P (update_row p f x))
      → All P (update_many p f xs)
  All-update_every P p f [] h = tt
  All-update_every P p f (x ∷ xs) h = (h x, All-update_every P p f xs h)

  -- The relation between rows may change with the update.
  pub Pairwise-update_to {κ μ} :
      (R : A → A → Type κ) (S : A → A → Type μ) (p : A → Bool) (f : A → A) (xs : List A)
      → ((x y : A) → R x y → S (update_row p f x) (update_row p f y))
      → Pairwise R xs
      → Pairwise S (update_many p f xs)
  Pairwise-update_to R S p f [] turn h = tt
  Pairwise-update_to R S p f (x ∷ xs) turn h = (row xs h.0, Pairwise-update_to R S p f xs turn h.1)
    where
      row : (ys : List A) → All (R x) ys → All (S (update_row p f x)) (update_many p f ys)
      row [] v = tt
      row (y ∷ ys) v = (turn x y v.0, row ys v.1)
