-- ===== src/Reviews/Laws.antt =====
-- What a successful `create` of a review has found and written.
use sosedi_app.Prelude.{
  Option-cases, String, any, arith, false, find_first, inl, inr, ltb, none, not, not-false, some,
  sym, true, ℕ, ◌+◌, ◌==◌, ◌≡◌, ◌≤◌, ◌⊎◌,
}
use sosedi_app.Domain.{Booking, participates}
use sosedi_app.Domain.Failure.{>>=-eq-ok, ok, ok-pair, or_throw-eq-ok, throw_if-eq-ok}
use sosedi_app.Domain.Status.{BookingStatus, booking_is}
use sosedi_app.Reviews.{
  CreateReviewDto, NewReview, Review, ReviewDb, ReviewResponse, answer_repeated,
  assert_safe_review_text, author_role_of, create_first, create_review, has_client_id, is_of,
  last_completion, new_review, review_window_ms, same_content, to_response, write_review,
}

-- The answer to a request whose client identifier is in use.
pub record Repeats (actor booking : String) (dto : CreateReviewDto) (now : ℕ) (db db' : ReviewDb)
    (answer : ReviewResponse) : Type 0 where
  pub earlier : Review
  pub known : find_first (has_client_id actor dto.client_review_id) db.reviews ≡ some earlier
  pub content : same_content booking dto earlier ≡ true
  pub kept : db' ≡ db
  pub same : answer ≡ to_response actor now earlier

-- A new review: within its window, and the only one of its author's side.
pub record Adds (actor : String) (b : Booking) (dto : CreateReviewDto) (now : ℕ) (new : NewReview)
    (db db' : ReviewDb) (answer : ReviewResponse) : Type 0 where
  pub completed_at : ℕ
  pub recorded : last_completion b.id db.history ≡ some completed_at
  pub within : now ≤ completed_at + review_window_ms
  pub only : any (is_of b.id (author_role_of actor b)) db.reviews ≡ false
  pub db_written :
      db'
      ≡ (write_review actor b
          (new_review actor b dto (completed_at + review_window_ms) new)
          now
          db).0
  pub answered :
      answer
      ≡ (write_review actor b
          (new_review actor b dto (completed_at + review_window_ms) new)
          now
          db).1

pub record Accepts (actor booking : String) (dto : CreateReviewDto) (now : ℕ) (new : NewReview)
    (db db' : ReviewDb) (answer : ReviewResponse) : Type 0 where
  pub clean : assert_safe_review_text dto.text ≡ ok tt
  pub row : Booking
  pub found : find_first (participates actor booking) db.bookings ≡ some row
  pub over : booking_is row.status BookingStatus.completed ≡ true
  pub outcome :
      Repeats actor booking dto now db db' answer
      ⊎ ((find_first (has_client_id actor dto.client_review_id) db.reviews ≡ none)
          × Adds actor row dto now new db db' answer)

module _ (actor booking : String) (dto : CreateReviewDto) (now : ℕ) (new : NewReview)
    (db : ReviewDb) {db' : ReviewDb} {answer : ReviewResponse} where
  answer_repeated-Repeats :
      (r : Review)
      → find_first (has_client_id actor dto.client_review_id) db.reviews ≡ some r
      → answer_repeated actor booking dto now r db ≡ ok (db', answer)
      → Repeats actor booking dto now db db' answer
  answer_repeated-Repeats r known e =
      let (differs, e1) = throw_if-eq-ok (not (same_content booking dto r)) _ _ e in
      record {
        earlier = r;
        known = known;
        content = not-false _ differs;
        kept = sym (ok-pair e1).0;
        same = sym (ok-pair e1).1;
      }

  create_first-Adds :
      (b : Booking)
      → create_first actor b dto now new db ≡ ok (db', answer)
      → Adds actor b dto now new db db' answer
  unfolding create_first
  create_first-Adds b e =
      let (t, recorded, e1) = or_throw-eq-ok (last_completion b.id db.history) _ _ e in
      let (late, e2) = throw_if-eq-ok (ltb (t + review_window_ms) now) _ _ e1 in
      let (only, e3) =
        throw_if-eq-ok (any (is_of b.id (author_role_of actor b)) db.reviews) _ _ e2 in
      let (_, e4) = throw_if-eq-ok (any (λ r. r.id == new.id) db.reviews) _ _ e3 in
      record {
        completed_at = t;
        recorded = recorded;
        within = ground arith;
        only = only;
        db_written = sym (ok-pair e4).0;
        answered = sym (ok-pair e4).1;
      }

  pub create_review-Accepts :
      create_review actor booking dto now new db ≡ ok (db', answer)
      → Accepts actor booking dto now new db db' answer
  unfolding create_review
  create_review-Accepts e =
      let (_, clean, e1) = >>=-eq-ok (assert_safe_review_text dto.text) _ e in
      let (b, found, e2) =
        or_throw-eq-ok (find_first (participates actor booking) db.bookings) _ _ e1 in
      let (unfinished, e3) =
        throw_if-eq-ok (not (booking_is b.status BookingStatus.completed)) _ _ e2 in
      elim (Option-cases (find_first (has_client_id actor dto.client_review_id) db.reviews)) [
        | inl fresh ↦ record {
          clean = clean;
          row = b;
          found = found;
          over = not-false _ unfinished;
          outcome = inr (fresh, create_first-Adds b (rw fresh at e3));
        }
        | inr (r, known) ↦ record {
          clean = clean;
          row = b;
          found = found;
          over = not-false _ unfinished;
          outcome = inl (answer_repeated-Repeats r known (rw known at e3));
        }
      ]
