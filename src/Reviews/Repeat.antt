-- ===== src/Reviews/Repeat.antt =====
-- A review that is sent again.
use sosedi_app.Prelude.{
  Bool-cases, Option, String, any, ap, arith, eq_iff, eq_refl, find_first, find_first_holds, inl,
  inr, ltb, none, refl, some, subst₂, sym, true, ℕ, ◌+◌, ◌∙◌, ◌≡◌, ◌≤◌,
}
use sosedi_app.Booking.Create.{answer}
use sosedi_app.Domain.{Booking, participates}
use sosedi_app.Domain.Failure.{ok}
use sosedi_app.Domain.Status.{BookingStatus, booking_is}
use sosedi_app.Reviews.{
  CreateReviewDto, NewReview, Review, ReviewDb, ReviewResponse, assert_safe_review_text,
  create_review, has_client_id, is_counterpart, new_review, review_window_ms, same_content,
  same_option, set_out, to_response, write_review,
}
use sosedi_app.Reviews.Laws.{create_review-Accepts}

same_option_refl : (o : Option String) → same_option o o ≡ true
same_option_refl none = refl
same_option_refl (some s) = eq_refl s

module _ (actor booking : String) (dto : CreateReviewDto) (now : ℕ) (again : NewReview)
    (db : ReviewDb) where
  -- The path of a request whose client identifier is in use.
  create_review-repeat :
      (b : Booking) (r : Review)
      → assert_safe_review_text dto.text ≡ ok tt
      → find_first (participates actor booking) db.bookings ≡ some b
      → booking_is b.status BookingStatus.completed ≡ true
      → find_first (has_client_id actor dto.client_review_id) db.reviews ≡ some r
      → same_content booking dto r ≡ true
      → create_review actor booking dto now again db ≡ ok (db, to_response actor now r)
  unfolding create_review
  create_review-repeat b r clean found over known content = rw (clean, found, over, known, content)

-- The row that a creation leaves is found by its client identifier, says what was sent, and gives
-- the answer of the creation.
record Leaves (actor booking : String) (dto : CreateReviewDto) (now : ℕ) (db db' : ReviewDb)
    (answer : ReviewResponse) : Type 0 where
  row : Review
  known : find_first (has_client_id actor dto.client_review_id) db'.reviews ≡ some row
  content : same_content booking dto row ≡ true
  same : answer ≡ to_response actor now row
  bookings : db'.bookings ≡ db.bookings

module _ (actor booking : String) (b : Booking) (dto : CreateReviewDto) (deadline now : ℕ)
    (new : NewReview) (db : ReviewDb) (within : now ≤ deadline) (named : b.id ≡ booking) where
  write_review-Leaves :
      Leaves actor booking dto now db
        (write_review actor b (new_review actor b dto deadline new) now db).0
        (write_review actor b (new_review actor b dto deadline new) now db).1
  write_review-Leaves =
      let created = new_review actor b dto deadline new in
      let own = eq_refl actor in
      let key = eq_refl dto.client_review_id in
      let content : same_content booking dto created ≡ true =
        rw (named, eq_refl booking, same_option_refl dto.text) (ground arith) in
      elim (Bool-cases (any (is_counterpart b.id created.author_role) db.reviews)) [
        | inl both ↦ elim (Bool-cases (ltb now deadline)) [
          | inl early ↦ rw both (record {
            row = set_out now created;
            known = rw (eq_refl b.id, early, own, key);
            content = content;
            same = refl;
            bookings = refl;
          })
          | inr last ↦
              let last_moment : now ≡ deadline = ground arith in
              rw both (record {
                row = created;
                known = rw (eq_refl b.id, last, own, key);
                content = content;
                same = rw last_moment;
                bookings = refl;
              })
        ]
        | inr alone ↦ rw alone (record {
          row = created;
          known = rw (own, key);
          content = content;
          same = refl;
          bookings = refl;
        })
      ]

-- A creation of a review that succeeded gives the same answer and changes nothing when it is sent
-- again at the same moment.
pub create_review_repeated :
    (actor booking : String) (dto : CreateReviewDto) (now : ℕ) (new again : NewReview)
    (db db' : ReviewDb) (answer : ReviewResponse)
    → create_review actor booking dto now new db ≡ ok (db', answer)
    → create_review actor booking dto now again db' ≡ ok (db', answer)
create_review_repeated actor booking dto now new again db db' answer e =
    let done = create_review-Accepts actor booking dto now new db e in
    elim done.outcome [
      | inl old ↦
          rw (old.kept, old.same)
            (create_review-repeat actor booking dto now again db done.row old.earlier done.clean
              done.found done.over old.known old.content)
      | inr (_, added) ↦
          let deadline = added.completed_at + review_window_ms in
          let named =
            (participates_id actor booking done.row
              (find_first_holds (participates actor booking) db.bookings done.found)) in
          let left =
            subst₂ (Leaves actor booking dto now db) (sym added.db_written) (sym added.answered) (
              write_review-Leaves actor booking done.row dto deadline now new db added.within
                named) in
          rw left.same (
            create_review-repeat actor booking dto now again db' done.row left.row done.clean
              (ap (find_first (participates actor booking)) left.bookings ∙ done.found) done.over
              left.known left.content)
    ]
  where
    participates_id : (a k : String) (b : Booking) → participates a k b ≡ true → b.id ≡ k
    participates_id a k b h = ground (arith, eq_iff b.id k)
