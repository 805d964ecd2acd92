-- ===== src/Tests/Reviews.antt =====
-- Anna and Boris review a rental that is over.
use sosedi_app.Prelude.{
  Bool, Bool-cases, List, String, [], arith, eq_iff, eqb, false, inl, inr, ltb, map, none, num_eq,
  refl, some, true, ℕ, ◌&&◌, ◌*◌, ◌+◌, ◌||◌, ◌∷◌, ◌≡◌, ◌⊎◌,
}
use sosedi_app.Domain.{Booking}
use sosedi_app.Domain.Failure.{ok}
use sosedi_app.Domain.Status.{BookingStatus}
use sosedi_app.Reviews.{
  CreateReviewDto, NewReview, Review, ReviewDb, create_first, create_review, last_completion,
  list_for_booking, new_review, review_window_ms, to_response,
}
use sosedi_app.Reviews.Blind.{create_review_blind}
use sosedi_app.Reviews.Disclosure.{IsDisclosed, create_review-IsDisclosed}
use sosedi_app.Reviews.Order.{DistinctIds, IdOrder, newest_first}
use sosedi_app.Reviews.Pages.{to_public}
use sosedi_app.Reviews.Repeat.{create_review_repeated}
use sosedi_app.Reviews.Walk.{walk, walk_complete}
use sosedi_app.Tests.Data.{returned_booking}
use sosedi_app.Text.{codes}
use Prim.Native.Char.{code}
use text.Mathlib.TextEquality.{Char-path}

-- Identifiers in the order of their characters.
abbrev before_codes : List ℕ → List ℕ → Bool
before_codes [] [] = false
before_codes [] (y ∷ ys) = true
before_codes (x ∷ xs) [] = false
before_codes (x ∷ xs) (y ∷ ys) = ltb x y || (eqb x y && before_codes xs ys)

before_codes_trans :
    (xs ys zs : List ℕ)
    → before_codes xs ys ≡ true
    → before_codes ys zs ≡ true
    → before_codes xs zs ≡ true
before_codes_trans [] [] zs p q = absurd (cc p)
before_codes_trans [] (y ∷ ys) [] p q = absurd (cc q)
before_codes_trans [] (y ∷ ys) (z ∷ zs) p q = refl
before_codes_trans (x ∷ xs) [] zs p q = absurd (cc p)
before_codes_trans (x ∷ xs) (y ∷ ys) [] p q = absurd (cc q)
before_codes_trans (x ∷ xs) (y ∷ ys) (z ∷ zs) p q = ground (arith, before_codes_trans xs ys zs)

before_codes_irrefl : (xs : List ℕ) → before_codes xs xs ≡ false
before_codes_irrefl [] = refl
before_codes_irrefl (x ∷ xs) = ground (arith, before_codes_irrefl xs)

before_codes_total :
    (xs ys : List ℕ) → before_codes xs ys ≡ false → (xs ≡ ys) ⊎ (before_codes ys xs ≡ true)
before_codes_total [] [] p = inl refl
before_codes_total [] (y ∷ ys) p = absurd (cc p)
before_codes_total (x ∷ xs) [] p = inr refl
before_codes_total (x ∷ xs) (y ∷ ys) p = elim (Bool-cases (eqb x y)) [
  | inl same ↦
      let here : x ≡ y = num_eq x y same in
      elim (before_codes_total xs ys (ground arith)) [
        | inl rest ↦ inl (cc (here, rest))
        | inr later_on ↦ inr (ground arith)
      ]
  | inr other ↦ inr (ground arith)
]

codes-injective : (s t : String) → codes s ≡ codes t → s ≡ t
codes-injective String.[] String.[] p = refl
codes-injective String.[] (String.◌∷◌ d t) p = absurd (cc p)
codes-injective (String.◌∷◌ c s) String.[] p = absurd (cc p)
codes-injective (String.◌∷◌ c s) (String.◌∷◌ d t) p =
    let head : code c ≡ code d = ground (arith, p) in
    let tail : codes s ≡ codes t = ground (arith, p) in
    cc (Char-path c d head, codes-injective s t tail)

abbrev before : String → String → Bool
before a b = before_codes (codes a) (codes b)

before-IdOrder : IdOrder before
before-IdOrder = record {
  trans = λ a b c. before_codes_trans (codes a) (codes b) (codes c);
  irrefl = λ a. before_codes_irrefl (codes a);
  total = λ a b apart p. elim (before_codes_total (codes a) (codes b) p) [
    | inl same ↦ absurd (apart (codes-injective a b same))
    | inr other ↦ other
  ];
}

abbrev ended : Booking
ended = record returned_booking { status = BookingStatus.completed }

abbrev day_ms : ℕ
day_ms = 24 * 60 * 60 * 1000

abbrev no_reviews : ReviewDb
no_reviews = record {
  bookings = ended ∷ [];
  history =
      record { booking_id = ended.id; new_status = BookingStatus.completed; created_at = day_ms }
      ∷ [];
  reviews = [];
  users = record { id = ended.lender_id; is_blocked = false; is_deleted = false } ∷ [];
}

abbrev anna_says : CreateReviewDto
anna_says = record { client_review_id = "c1"; rating = 5; text = some "A fine drill" }

abbrev boris_says : CreateReviewDto
boris_says = record { client_review_id = "c2"; rating = 4; text = none }

abbrev first_new : NewReview
first_new = record { id = "r1"; created_at = 2 * day_ms }

abbrev second_new : NewReview
second_new = record { id = "r2"; created_at = 3 * day_ms }

abbrev annas_review : Review
annas_review = new_review ended.borrower_id ended anna_says (day_ms + review_window_ms) first_new

abbrev one_review : ReviewDb
one_review = record no_reviews { reviews = annas_review ∷ [] }

anna_reviews :
    create_review ended.borrower_id ended.id anna_says (2 * day_ms) first_new no_reviews
    ≡ ok (one_review, to_response ended.borrower_id (2 * day_ms) annas_review)
unfolding create_review create_first last_completion
anna_reviews = refl

create_review_repeated_example :
    create_review ended.borrower_id ended.id anna_says (2 * day_ms) second_new one_review
    ≡ ok (one_review, to_response ended.borrower_id (2 * day_ms) annas_review)
create_review_repeated_example =
    create_review_repeated ended.borrower_id ended.id anna_says (2 * day_ms) first_new second_new
      no_reviews one_review (to_response ended.borrower_id (2 * day_ms) annas_review) anna_reviews

-- Boris sees nothing of it the day after.
create_review_blind_example :
    list_for_booking before "boris" "b1" (3 * day_ms) one_review
    ≡ list_for_booking before "boris" "b1" (3 * day_ms) no_reviews
create_review_blind_example =
    create_review_blind before ended.borrower_id ended.id anna_says (2 * day_ms) first_new
      no_reviews one_review (to_response ended.borrower_id (2 * day_ms) annas_review) "boris" "b1"
      (3 * day_ms) anna_reviews (omega arith) (omega arith) (ground (arith, eq_iff "boris" "anna"))

-- Boris answers, and both are out.
abbrev boriss_review : Review
boriss_review =
    record (new_review ended.lender_id ended boris_says (day_ms + review_window_ms) second_new) {
      publish_at = 3 * day_ms;
    }

abbrev two_reviews : ReviewDb
two_reviews = record no_reviews {
  reviews = boriss_review ∷ record annas_review { publish_at = 3 * day_ms } ∷ [];
}

boris_reviews :
    create_review ended.lender_id ended.id boris_says (3 * day_ms) second_new one_review
    ≡ ok (two_reviews, to_response ended.lender_id (3 * day_ms) boriss_review)
unfolding create_review create_first last_completion
boris_reviews = refl

create_review-IsDisclosed_example : IsDisclosed (3 * day_ms) two_reviews
create_review-IsDisclosed_example =
    create_review-IsDisclosed (2 * day_ms) (3 * day_ms) (omega arith) ended.lender_id ended.id
      boris_says second_new one_review two_reviews
      (to_response ended.lender_id (3 * day_ms) boriss_review) (tt, tt) boris_reviews

-- The reviews of Boris, with an older one.
abbrev of_boris : ReviewDb
of_boris = record two_reviews {
  reviews =
      boriss_review
      ∷ record annas_review { publish_at = 3 * day_ms }
      ∷ record annas_review { id = "r0"; booking_id = "b0"; publish_at = 0; created_at = 0 }
      ∷ [];
}

ids_differ : DistinctIds of_boris
ids_differ = (
  (ground (arith, eq_iff "r2" "r1"), (ground (arith, eq_iff "r2" "r0"), tt)),
  ((ground (arith, eq_iff "r1" "r0"), tt), (tt, tt)),
)

walk_complete_example :
    walk before "boris" 1 (4 * day_ms) of_boris 3 none
    ≡ some (map to_public (newest_first before "boris" (4 * day_ms) of_boris))
walk_complete_example =
    walk_complete before before-IdOrder "boris" 1 (4 * day_ms) (omega arith) of_boris ids_differ
      (record { id = "boris"; is_blocked = false; is_deleted = false }) refl 3 (omega arith)

walks_newest_first :
    map (λ (r : Review). r.id) (newest_first before "boris" (4 * day_ms) of_boris)
    ≡ "r1" ∷ "r0" ∷ []
walks_newest_first = refl
