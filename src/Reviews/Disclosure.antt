-- ===== src/Reviews/Disclosure.antt =====
-- When the reviews of a booking come out.
use sosedi_app.Prelude.{
  All, All-mono, All-zip, Bool-cases, List, Pairwise, Pairwise-mono, Pairwise-update_to, String,
  any, any_none, arith, eq_iff, false, inl, inr, refl, subst, sym, update_row, ℕ, ◌+◌, ◌∷◌, ◌≡◌,
  ◌≢◌, ◌≤◌, ◌⊎◌,
}
use sosedi_app.Booking.Create.{answer}
use sosedi_app.Domain.{Booking}
use sosedi_app.Domain.Failure.{ok}
use sosedi_app.Reviews.{
  AuthorRole, CreateReviewDto, NewReview, Review, ReviewDb, ReviewResponse, create_review,
  is_closed, is_counterpart, is_of, new_review, review_window_ms, role_is, set_out, write_review,
}
use sosedi_app.Reviews.Laws.{create_review-Accepts}

-- Two reviews of one booking are of different sides, and both are out at `t`.
abbrev pub BothOut : ℕ → Review → Review → Type 0
BothOut t r s =
    r.booking_id ≡ s.booking_id
    → (role_is r.author_role s.author_role ≡ false) × (r.publish_at ≤ t) × (s.publish_at ≤ t)

abbrev pub IsDisclosed : ℕ → ReviewDb → Type 0
IsDisclosed t db = Pairwise (BothOut t) db.reviews

-- The same, but for the booking `k`, whose reviews may still be closed.
abbrev Closed : String → ℕ → Review → Review → Type 0
Closed k t r s =
    r.booking_id ≡ s.booking_id
    → (role_is r.author_role s.author_role ≡ false)
      × ((r.booking_id ≡ k) ⊎ ((r.publish_at ≤ t) × (s.publish_at ≤ t)))

role_is_comm : (a b : AuthorRole) → role_is a b ≡ role_is b a
role_is_comm AuthorRole.by_borrower AuthorRole.by_borrower = refl
role_is_comm AuthorRole.by_borrower AuthorRole.by_lender = refl
role_is_comm AuthorRole.by_lender AuthorRole.by_borrower = refl
role_is_comm AuthorRole.by_lender AuthorRole.by_lender = refl

-- A review of a side that has none yet differs in its side from every review of the booking.
new_side :
    (created : Review) (xs : List Review)
    → any (is_of created.booking_id created.author_role) xs ≡ false
    → All
        (λ s. created.booking_id ≡ s.booking_id → role_is created.author_role s.author_role ≡ false)
        xs
new_side created xs only =
    All-mono (λ s. is_of created.booking_id created.author_role s ≡ false) _ xs
      (λ s other same. ground (
        arith,
        role_is_comm created.author_role s.author_role,
        eq_iff s.booking_id created.booking_id,
      ))
      (any_none (is_of created.booking_id created.author_role) xs only)

-- With no review of the other side either, the booking has no review.
no_review :
    (created : Review) (xs : List Review)
    → any (is_of created.booking_id created.author_role) xs ≡ false
    → any (is_counterpart created.booking_id created.author_role) xs ≡ false
    → All (λ s. created.booking_id ≢ s.booking_id) xs
no_review created xs only alone =
    All-zip (λ s. is_of created.booking_id created.author_role s ≡ false)
      (λ s. is_counterpart created.booking_id created.author_role s ≡ false) _ xs
      (λ s not_own not_other same. ground (arith, eq_iff s.booking_id created.booking_id))
      (any_none (is_of created.booking_id created.author_role) xs only)
      (any_none (is_counterpart created.booking_id created.author_role) xs alone)

module _ (t now : ℕ) (passed : t ≤ now) where
  BothOut-later : (r s : Review) → BothOut t r s → BothOut now r s
  BothOut-later r s out same =
      let (apart, first, second) = out same in (apart, omega arith, omega arith)

  publish_row-BothOut :
      (k : String) (r s : Review)
      → Closed k now r s
      → BothOut now
          (update_row (is_closed k now) (set_out now) r)
          (update_row (is_closed k now) (set_out now) s)
  publish_row-BothOut k r s closed same = ground (
    arith,
    eq_iff r.booking_id k,
    eq_iff s.booking_id k,
    eq_iff r.booking_id s.booking_id,
    closed,
  )

  Closed-later : (k : String) (r s : Review) → BothOut t r s → Closed k now r s
  Closed-later k r s out same =
      let (apart, first, second) = out same in (apart, inr (omega arith, omega arith))

  write_review-IsDisclosed :
      (actor : String) (b : Booking) (created : Review) (db : ReviewDb)
      → created.booking_id ≡ b.id
      → any (is_of b.id created.author_role) db.reviews ≡ false
      → IsDisclosed t db
      → IsDisclosed now (write_review actor b created now db).0
  write_review-IsDisclosed actor b created db of_b only out =
      let side : any (is_of created.booking_id created.author_role) db.reviews ≡ false =
        rw of_b only in
      elim (Bool-cases (any (is_counterpart b.id created.author_role) db.reviews)) [
        | inl both ↦ rw both (
            Pairwise-update_to (Closed b.id now) (BothOut now) (is_closed b.id now) (set_out now)
              (created ∷ db.reviews) (publish_row-BothOut b.id)
              (
                All-mono
                    (λ s.
                      created.booking_id ≡ s.booking_id
                      → role_is created.author_role s.author_role ≡ false)
                    (Closed b.id now created) db.reviews (λ s apart same. (apart same, inl of_b))
                    (new_side created db.reviews side),
                Pairwise-mono (BothOut t) (Closed b.id now) db.reviews (Closed-later b.id) out,
              ))
        | inr alone ↦ rw alone (
          All-mono (λ s. created.booking_id ≢ s.booking_id) (BothOut now created) db.reviews
              (λ s other same. absurd (other same))
              (no_review created db.reviews side (rw of_b alone)),
          Pairwise-mono (BothOut t) (BothOut now) db.reviews BothOut-later out,
        )
      ]

  -- If any two reviews of one booking are of different sides and both out, this also holds after
  -- a review was created at a later time.
  pub create_review-IsDisclosed :
      (actor booking : String) (dto : CreateReviewDto) (new : NewReview) (db db' : ReviewDb)
      (answer : ReviewResponse)
      → IsDisclosed t db
      → create_review actor booking dto now new db ≡ ok (db', answer)
      → IsDisclosed now db'
  create_review-IsDisclosed actor booking dto new db db' answer out e =
      let done = create_review-Accepts actor booking dto now new db e in
      elim done.outcome [
        | inl again ↦
            subst (IsDisclosed now) (sym again.kept)
              (Pairwise-mono (BothOut t) (BothOut now) db.reviews BothOut-later out)
        | inr (_, added) ↦ subst (IsDisclosed now) (sym added.db_written) (
            write_review-IsDisclosed actor done.row
              (new_review actor done.row dto (added.completed_at + review_window_ms) new) db refl
              added.only out)
      ]
