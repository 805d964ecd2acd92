-- ===== src/Reviews/Walk.antt =====
-- A reader who follows the cursors of the public reviews of a user from the first page on.
use sosedi_app.Prelude.{
  All, Bool, Bool-cases, List, Option, String, [], ap, arith, false, find_first, inl, inr, length,
  ltb, map, none, refl, some, subst, suc, sym, take, true, zero, ℕ, ◌++◌, ◌+◌, ◌<◌, ◌∙◌, ◌∷◌, ◌≡◌,
  ◌≤◌,
}
use sosedi_app.Domain.Failure.{err, ok}
use sosedi_app.Reviews.{Profile, Review, ReviewDb}
use sosedi_app.Reviews.Order.{
  DistinctIds, IdOrder, after_cursor-behind, newest_first, newest_first-found,
}
use sosedi_app.Reviews.Pages.{
  PublicReview, has_profile, is_cursor, last_id, list_public_for_user, page_of, to_public, visible,
}

-- The items of all pages from a cursor on; `none` if the fuel is used up or a page is refused.
pub walk :
    (String → String → Bool)
    → String
    → ℕ
    → ℕ
    → ReviewDb
    → ℕ
    → Option String
    → Option (List PublicReview)
walk before target limit now db zero cursor = none
walk before target limit now db (suc fuel) cursor =
    elim (list_public_for_user before target (record { cursor = cursor; limit = limit }) now db) [
      | err _ ↦ none
      | ok page ↦ elim page.next_cursor [
        | none ↦ some page.items
        | some k ↦ elim (walk before target limit now db fuel (some k)) [
          | none ↦ none
          | some others ↦ some (page.items ++ others)
        ]
      ]
    ]

-- A page that is not the last ends in a row, behind which the rest stands.
record Cut (limit : ℕ) (rows : List Review) : Type 0 where
  ahead : List Review
  final : Review
  behind : List Review
  parts : rows ≡ ahead ++ final ∷ behind
  page : take limit rows ≡ ahead ++ final ∷ []
  shorter : length behind < length rows

cut : (limit : ℕ) (rows : List Review) → 0 < limit → limit < length rows → Cut limit rows
cut zero rows some_limit more = absurd (omega arith)
cut (suc n) [] some_limit more = absurd (omega arith)
cut (suc zero) (r ∷ rs) some_limit more = record {
  ahead = [];
  final = r;
  behind = rs;
  parts = refl;
  page = refl;
  shorter = omega arith;
}
cut (suc (suc n)) (r ∷ rs) some_limit more =
    let c = cut (suc n) rs (omega arith) (omega arith) in
    record {
      ahead = r ∷ c.ahead;
      final = c.final;
      behind = c.behind;
      parts = ap (λ (zs : List Review). r ∷ zs) c.parts;
      page = ap (λ (zs : List Review). r ∷ zs) c.page;
      shorter = let s = c.shorter in omega arith;
    }

last_id-append : (xs : List Review) (c : Review) → last_id (xs ++ c ∷ []) ≡ some c.id
last_id-append [] c = refl
last_id-append (x ∷ []) c = refl
last_id-append (x ∷ y ∷ xs) c = last_id-append (y ∷ xs) c

take-take : (n : ℕ) (rows : List Review) → take n (take (suc n) rows) ≡ take n rows
take-take zero rows = refl
take-take (suc n) [] = refl
take-take (suc n) (r ∷ rs) = ap (λ (zs : List Review). r ∷ zs) (take-take n rs)

take-short : (n : ℕ) (rows : List Review) → length rows ≤ n → take n rows ≡ rows
take-short zero [] h = refl
take-short zero (r ∷ rs) h = absurd (omega arith)
take-short (suc n) [] h = refl
take-short (suc n) (r ∷ rs) h = ap (λ (zs : List Review). r ∷ zs) (take-short n rs (omega arith))

take-more :
    (n : ℕ) (rows : List Review) → n < length rows → ltb n (length (take (suc n) rows)) ≡ true
take-more zero [] h = absurd (omega arith)
take-more zero (r ∷ rs) h = refl
take-more (suc n) [] h = absurd (omega arith)
take-more (suc n) (r ∷ rs) h = let ih = take-more n rs (omega arith) in ground arith

map-append : (xs ys : List Review) → map to_public (xs ++ ys) ≡ map to_public xs ++ map to_public ys
map-append [] ys = refl
map-append (x ∷ xs) ys = ap (λ (zs : List PublicReview). to_public x ∷ zs) (map-append xs ys)

append_step :
    (xs : List Review) (c : Review) (ys : List Review) → (xs ++ c ∷ []) ++ ys ≡ xs ++ c ∷ ys
append_step [] c ys = refl
append_step (x ∷ xs) c ys = ap (λ (zs : List Review). x ∷ zs) (append_step xs c ys)

All-middle {κ} :
    (P : Review → Type κ) (xs : List Review) (c : Review) (ys : List Review)
    → All P (xs ++ c ∷ ys)
    → P c
All-middle P [] c ys h = h.0
All-middle P (x ∷ xs) c ys h = All-middle P xs c ys h.1

-- The whole listing with the front of one page moved on.
advance :
    (front : List Review) {rows : List Review} (ahead : List Review) (c : Review)
    (behind : List Review)
    → rows ≡ ahead ++ c ∷ behind
    → (front ++ rows ≡ (front ++ ahead) ++ c ∷ behind)
      × (front ++ rows ≡ (front ++ (ahead ++ c ∷ [])) ++ behind)
advance front ahead c behind parts =
    rw parts (append_assoc_of front ahead c behind, deeper front ahead c behind)
  where
    append_assoc_of :
        (f a : List Review) (x : Review) (b : List Review) → f ++ (a ++ x ∷ b) ≡ (f ++ a) ++ x ∷ b
    append_assoc_of [] a x b = refl
    append_assoc_of (y ∷ f) a x b = ap (λ (zs : List Review). y ∷ zs) (append_assoc_of f a x b)

    deeper :
        (f a : List Review) (x : Review) (b : List Review)
        → f ++ (a ++ x ∷ b) ≡ (f ++ (a ++ x ∷ [])) ++ b
    deeper [] a x b = sym (append_step a x b)
    deeper (y ∷ f) a x b = ap (λ (zs : List Review). y ∷ zs) (deeper f a x b)

-- The page that the rows give: cut off behind some row, or all of them.
module _ (limit : ℕ) (seen rows : List Review) where
  page_of-Cut :
      (c : Cut limit rows)
      → limit < length rows
      → ((page_of limit seen (take (suc limit) rows)).items
          ≡ map to_public (c.ahead ++ c.final ∷ []))
        × ((page_of limit seen (take (suc limit) rows)).next_cursor ≡ some c.final.id)
  page_of-Cut c more =
      rw (take-more limit rows more, take-take limit rows, c.page)
        (refl, last_id-append c.ahead c.final)

  page_of-last :
      length rows ≤ limit
      → ((page_of limit seen (take (suc limit) rows)).items ≡ map to_public rows)
        × ((page_of limit seen (take (suc limit) rows)).next_cursor ≡ none)
  page_of-last short =
      let no_more : ltb limit (length rows) ≡ false = ground arith in
      rw (take-short (suc limit) rows (omega arith), no_more) (refl, refl)

module _ (before : String → String → Bool) (order : IdOrder before) (target : String)
    (limit now : ℕ) (positive : 0 < limit) (db : ReviewDb) (distinct : DistinctIds db) (u : Profile)
    (known : find_first (has_profile target) db.users ≡ some u) where
  -- The page at a cursor behind which `rows` stand.
  abbrev PageAt : Option String → List Review → Type 0
  PageAt cursor rows =
      list_public_for_user before target (record { cursor = cursor; limit = limit }) now db
      ≡ ok (page_of limit (visible target now db) (take (suc limit) rows))

  one_more : limit + 1 ≡ suc limit
  one_more = omega arith

  page_behind :
      (front : List Review) (c : Review) (rows : List Review)
      → newest_first before target now db ≡ front ++ c ∷ rows
      → PageAt (some c.id) rows
  unfolding list_public_for_user
  page_behind front c rows parts = rw (
    known,
    All-middle (λ r. find_first (is_cursor target now r.id) db.reviews ≡ some r) front c rows
        (subst (All (λ r. find_first (is_cursor target now r.id) db.reviews ≡ some r)) parts
          (newest_first-found target now before db distinct)),
    after_cursor-behind before order target now db distinct front c rows parts,
    one_more,
  )

  -- The walk over `rows` gives the items of their page, and of what stands behind it.
  walk_rows :
      (fuel : ℕ) (cursor : Option String) (front rows : List Review)
      → newest_first before target now db ≡ front ++ rows
      → PageAt cursor rows
      → length rows < fuel
      → walk before target limit now db fuel cursor ≡ some (map to_public rows)
  unfolding walk
  walk_rows zero cursor front rows parts page enough = absurd (omega arith)
  walk_rows (suc fuel) cursor front rows parts page enough =
      elim (Bool-cases (ltb limit (length rows))) [
        | inl more ↦
            let long : limit < length rows = ground arith in
            let c = cut limit rows positive long in
            let got = page_of-Cut limit (visible target now db) rows c long in
            let moved = advance front c.ahead c.final c.behind c.parts in
            let less = c.shorter in
            rw
              (
                walk,
                page,
                got.1,
                walk_rows fuel (some c.final.id) (front ++ (c.ahead ++ c.final ∷ [])) c.behind
                    (parts ∙ moved.1)
                    (page_behind (front ++ c.ahead) c.final c.behind (parts ∙ moved.0))
                    (omega arith),
                got.0,
              )
              (ap (λ (zs : List PublicReview). some zs)
                (sym (map-append (c.ahead ++ c.final ∷ []) c.behind)
                  ∙ ap (map to_public) (append_step c.ahead c.final c.behind ∙ sym c.parts)))
        | inr short ↦
            let got = page_of-last limit (visible target now db) rows (ground arith) in
            rw (walk, page, got.1, got.0)
      ]

  first_page : PageAt none (newest_first before target now db)
  unfolding list_public_for_user
  first_page = rw (known, one_more)

  -- Where identifiers are distinct and their order is strict and total, and the profile is shown,
  -- following the cursors of pages of a positive limit ends, within one page more than there are
  -- visible reviews, and gives each visible review once, the newest first.
  pub walk_complete :
      (fuel : ℕ)
      → length (newest_first before target now db) < fuel
      → walk before target limit now db fuel none
        ≡ some (map to_public (newest_first before target now db))
  walk_complete fuel enough =
      walk_rows fuel none [] (newest_first before target now db) refl first_page enough
