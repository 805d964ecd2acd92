-- ===== src/Reviews/Blind.antt =====
-- What the other participant sees of a review that is not out, and what a repeated request gives.
use sosedi_app.Prelude.{
  Bool, Bool-cases, List, String, any, arith, eq_iff, false, filter_rows, inl, inr, refl, some,
  subst, subst₂, sym, ℕ, ◌+◌, ◌<◌, ◌==◌, ◌∷◌, ◌≡◌, ◌≢◌, ◌⊎◌,
}
use sosedi_app.Prelude.Sort.{filter_rows-insert_by, sort_by}
use sosedi_app.Domain.{Booking}
use sosedi_app.Domain.Failure.{ok}
use sosedi_app.Reviews.{
  CreateReviewDto, NewReview, Review, ReviewDb, ReviewResponse, create_review, is_counterpart,
  later, list_for_booking, new_review, older, review_window_ms, shows_to, write_review,
}
use sosedi_app.Reviews.Laws.{create_review-Accepts}

-- A row of the actor was added, which stays closed until `out`.
record AddsClosed (actor : String) (db db' : ReviewDb) (out : ℕ) : Type 0 where
  created : Review
  by_actor : created.author_id ≡ some actor
  closed : created.publish_at ≡ out
  reviews : db'.reviews ≡ created ∷ db.reviews
  bookings : db'.bookings ≡ db.bookings

write_review-AddsClosed :
    (actor : String) (b : Booking) (created : Review) (now : ℕ) (db : ReviewDb)
    → created.author_id ≡ some actor
    → now < (write_review actor b created now db).1.publish_at
    → AddsClosed actor db
        (write_review actor b created now db).0
        (write_review actor b created now db).1.publish_at
write_review-AddsClosed actor b created now db mine later =
    elim (Bool-cases (any (is_counterpart b.id created.author_role) db.reviews)) [
      | inl both ↦ absurd (omega (arith, rw both at later))
      | inr alone ↦ rw alone (record {
        created = created;
        by_actor = mine;
        closed = refl;
        reviews = refl;
        bookings = refl;
      })
    ]

module _ (before : String → String → Bool) (reader k : String) (at : ℕ) (created : Review)
    (hidden : shows_to reader at created ≡ false) where
  -- A row that the reader may not see leaves the listing as it is.
  listed_without :
      (xs : List Review)
      → filter_rows
          (shows_to reader at)
          (sort_by (older before) (filter_rows (λ r. r.booking_id == k) (created ∷ xs)))
        ≡ filter_rows
            (shows_to reader at)
            (sort_by (older before) (filter_rows (λ r. r.booking_id == k) xs))
  listed_without xs = elim (Bool-cases (created.booking_id == k)) [
    | inl here ↦
        rw here (filter_rows-insert_by (older before) (shows_to reader at) created _ hidden)
    | inr there ↦ rw there
  ]

module _ (before : String → String → Bool) (actor booking : String) (dto : CreateReviewDto)
    (now : ℕ) (new : NewReview) (db db' : ReviewDb) (answer : ReviewResponse) where
  create_review-AddsClosed :
      create_review actor booking dto now new db ≡ ok (db', answer)
      → now < answer.publish_at
      → (db' ≡ db) ⊎ AddsClosed actor db db' answer.publish_at
  create_review-AddsClosed e later =
      let done = create_review-Accepts actor booking dto now new db e in
      elim done.outcome [
        | inl again ↦ inl again.kept
        | inr (_, added) ↦
            let created =
              new_review actor done.row dto (added.completed_at + review_window_ms) new in
            inr (
              subst₂ (λ d (a : ReviewResponse). AddsClosed actor db d a.publish_at)
                (sym added.db_written) (sym added.answered)
                (write_review-AddsClosed actor done.row created now db refl
                  (subst (λ (a : ReviewResponse). now < a.publish_at) added.answered later)))
      ]

  -- While the publication that the answer names has not come, every listing of another reader is
  -- what it was before the review.
  pub create_review_blind :
      (reader k : String) (at : ℕ)
      → create_review actor booking dto now new db ≡ ok (db', answer)
      → now < answer.publish_at
      → at < answer.publish_at
      → reader ≢ actor
      → list_for_booking before reader k at db' ≡ list_for_booking before reader k at db
  unfolding list_for_booking
  create_review_blind reader k at e later early other = elim (create_review-AddsClosed e later) [
    | inl same ↦ rw same
    | inr added ↦
        let hidden : shows_to reader at added.created ≡ false =
          rw (added.by_actor, added.closed) (ground (arith, eq_iff actor reader)) in
        rw (
          added.bookings,
          added.reviews,
          listed_without before reader k at added.created hidden db.reviews,
        )
  ]
