-- ===== src/Reviews.antt =====
-- backend/src/reviews/reviews.service.ts: the reviews of a completed booking. Each participant
-- writes one; it is published when the other has written, or when the time for writing is over.
-- Queries over the transition history see the moment of each row, so the history is a table of
-- its own here; the order of identifiers, which is the database's, is a parameter of the pages.
pub mod Laws
pub mod Disclosure
pub mod Blind
pub mod Repeat
pub mod Pages
pub mod Order
pub mod Walk
use sosedi_app.Prelude.{
  Bool, List, Option, String, [], any, eqb, false, filter_rows, find_first, if◌then◌else◌, is_some,
  leb, ltb, map, none, not, some, true, update_many, ℕ, ◌&&◌, ◌*◌, ◌+◌, ◌==◌, ◌||◌, ◌∷◌,
}
use sosedi_app.Prelude.Sort.{sort_by}
use sosedi_app.Domain.{Booking, participates}
use sosedi_app.Domain.Failure.{
  Result, booking_not_found, idempotency_key_reused, ok, or_throw, review_already_submitted,
  review_booking_not_completed, review_completion_not_recorded, review_text_unsafe,
  review_window_closed, throw_if, unique_violation, ◌>>=◌, ◌>>◌,
}
use sosedi_app.Domain.Status.{BookingStatus, booking_is}
use sosedi_app.Text.{codes}

pub data AuthorRole : Type 0 where
  by_borrower by_lender : AuthorRole

abbrev pub role_is : AuthorRole → AuthorRole → Bool
role_is AuthorRole.by_borrower AuthorRole.by_borrower = true
role_is AuthorRole.by_lender AuthorRole.by_lender = true
role_is _ _ = false

pub record Review : Type 0 where
  pub id : String
  pub booking_id : String
  pub author_id : Option String
  pub target_id : String
  pub author_role : AuthorRole
  pub client_review_id : Option String
  pub rating : ℕ
  pub text : Option String
  pub publish_at : ℕ
  pub hidden_at : Option ℕ
  pub created_at : ℕ

pub record HistoryRow : Type 0 where
  pub booking_id : String
  pub new_status : BookingStatus
  pub created_at : ℕ

pub record Profile : Type 0 where
  pub id : String
  pub is_blocked : Bool
  pub is_deleted : Bool

pub record ReviewDb : Type 0 where
  pub bookings : List Booking
  pub history : List HistoryRow
  pub reviews : List Review
  pub users : List Profile

pub record CreateReviewDto : Type 0 where
  pub client_review_id : String
  pub rating : ℕ
  pub text : Option String

-- What the database fills in for a new row.
pub record NewReview : Type 0 where
  pub id : String
  pub created_at : ℕ

-- `ParticipantReviewResponseDto`; `author_is_self` is `author: 'SELF'`.
pub record ReviewResponse : Type 0 where
  pub id : String
  pub author_is_self : Bool
  pub rating : ℕ
  pub text : Option String
  pub published : Bool
  pub hidden : Bool
  pub publish_at : ℕ
  pub created_at : ℕ

abbrev pub review_window_ms : ℕ
review_window_ms = 14 * 24 * 60 * 60 * 1000

-- The control characters that a text may not hold: all but tab, line feed and carriage return.
abbrev pub is_control : ℕ → Bool
is_control c = leb c 8 || eqb c 11 || eqb c 12 || (leb 14 c && leb c 31) || eqb c 127

-- `assertSafeReviewText`
abbrev pub assert_safe_review_text : Option String → Result (Unit {0})
assert_safe_review_text none = ok tt
assert_safe_review_text (some t) = throw_if (any is_control (codes t)) review_text_unsafe

abbrev pub same_option : Option String → Option String → Bool
same_option none none = true
same_option (some s) (some t) = s == t
same_option _ _ = false

abbrev pub author_role_of : String → Booking → AuthorRole
author_role_of actor b =
    if b.borrower_id == actor then AuthorRole.by_borrower else AuthorRole.by_lender

abbrev pub target_of : String → Booking → String
target_of actor b = if b.borrower_id == actor then b.lender_id else b.borrower_id

-- `review.findUnique({ where: { authorId_clientReviewId } })`
abbrev pub has_client_id : String → String → Review → Bool
has_client_id actor key r =
    same_option r.author_id (some actor) && same_option r.client_review_id (some key)

-- The stored review says the same as the request.
abbrev pub same_content : String → CreateReviewDto → Review → Bool
same_content booking dto r =
    r.booking_id == booking && (eqb r.rating dto.rating && same_option r.text dto.text)

abbrev pub is_of : String → AuthorRole → Review → Bool
is_of booking role r = r.booking_id == booking && role_is r.author_role role

abbrev pub is_counterpart : String → AuthorRole → Review → Bool
is_counterpart booking role r = r.booking_id == booking && not (role_is r.author_role role)

abbrev pub later : ℕ → Option ℕ → Option ℕ
later n none = some n
later n (some m) = if leb m n then some n else some m

-- The moment of the last completion: `findFirst` with the newest first.
unfoldable pub last_completion : String → List HistoryRow → Option ℕ
last_completion booking [] = none
last_completion booking (h ∷ hs) =
    let rest = last_completion booking hs in
    if h.booking_id == booking && booking_is h.new_status BookingStatus.completed
    then later h.created_at rest
    else rest

abbrev pub is_published : ℕ → Review → Bool
is_published now r = leb r.publish_at now && not (is_some r.hidden_at)

-- `toParticipantResponse`
abbrev pub to_response : String → ℕ → Review → ReviewResponse
to_response actor now r = record {
  id = r.id;
  author_is_self = same_option r.author_id (some actor);
  rating = r.rating;
  text = r.text;
  published = is_published now r;
  hidden = is_some r.hidden_at;
  publish_at = r.publish_at;
  created_at = r.created_at;
}

abbrev pub new_review : String → Booking → CreateReviewDto → ℕ → NewReview → Review
new_review actor b dto deadline new = record {
  id = new.id;
  booking_id = b.id;
  author_id = some actor;
  target_id = target_of actor b;
  author_role = author_role_of actor b;
  client_review_id = some dto.client_review_id;
  rating = dto.rating;
  text = dto.text;
  publish_at = deadline;
  hidden_at = none;
  created_at = new.created_at;
}

abbrev pub is_closed : String → ℕ → Review → Bool
is_closed booking now r = r.booking_id == booking && ltb now r.publish_at

abbrev pub set_out : ℕ → Review → Review
set_out now r = record r { publish_at = now }

-- `updateMany({ where: { bookingId, publishAt: { gt: now } }, data: { publishAt: now } })`
abbrev pub publish : String → ℕ → List Review → List Review
publish booking now = update_many (is_closed booking now) (set_out now)

-- The last writes of the transaction, once the review may be created.
abbrev pub write_review : String → Booking → Review → ℕ → ReviewDb → ReviewDb × ReviewResponse
write_review actor b created now db =
    if any (is_counterpart b.id created.author_role) db.reviews
    then (
      record db { reviews = publish b.id now (created ∷ db.reviews) },
      to_response actor now (record created { publish_at = now }),
    )
    else (record db { reviews = created ∷ db.reviews }, to_response actor now created)

-- A request with a client identifier that is in use.
abbrev pub answer_repeated :
    String → String → CreateReviewDto → ℕ → Review → ReviewDb → Result (ReviewDb × ReviewResponse)
answer_repeated actor booking dto now r db = do
  throw_if (not (same_content booking dto r)) idempotency_key_reused
  ok (db, to_response actor now r)

-- A request with a new client identifier.
unfoldable pub create_first :
    String
    → Booking
    → CreateReviewDto
    → ℕ
    → NewReview
    → ReviewDb
    → Result (ReviewDb × ReviewResponse)
unfolding last_completion
create_first actor b dto now new db = do
  completed_at ← or_throw (last_completion b.id db.history) review_completion_not_recorded
  throw_if (ltb (completed_at + review_window_ms) now) review_window_closed
  throw_if (any (is_of b.id (author_role_of actor b)) db.reviews) review_already_submitted
  throw_if (any (λ r. r.id == new.id) db.reviews) unique_violation
  ok (write_review actor b (new_review actor b dto (completed_at + review_window_ms) new) now db)

-- `ReviewsService.create`
unfoldable pub create_review :
    String
    → String
    → CreateReviewDto
    → ℕ
    → NewReview
    → ReviewDb
    → Result (ReviewDb × ReviewResponse)
unfolding create_first
create_review actor booking dto now new db = do
  assert_safe_review_text dto.text
  b ← or_throw (find_first (participates actor booking) db.bookings) booking_not_found
  throw_if (not (booking_is b.status BookingStatus.completed)) review_booking_not_completed
  elim (find_first (has_client_id actor dto.client_review_id) db.reviews) [
    | some r ↦ answer_repeated actor booking dto now r db
    | none ↦ create_first actor b dto now new db
  ]

-- What a participant may see of a review.
abbrev pub shows_to : String → ℕ → Review → Bool
shows_to actor now r = same_option r.author_id (some actor) || is_published now r

-- The order of a listing: by the moment of creation, then by identifier, whose order is `before`.
abbrev pub older : (String → String → Bool) → Review → Review → Bool
older before r s =
    ltb r.created_at s.created_at || (eqb r.created_at s.created_at && before r.id s.id)

-- `listForBooking`: the reviews of the booking that `actor` may see, the oldest first.
unfoldable pub list_for_booking :
    (String → String → Bool) → String → String → ℕ → ReviewDb → Result (List ReviewResponse)
list_for_booking before actor booking now db =
    or_throw (find_first (participates actor booking) db.bookings) booking_not_found >>= (λ b. ok (
      map (to_response actor now) (
        filter_rows (shows_to actor now)
          (sort_by (older before) (filter_rows (λ r. r.booking_id == booking) db.reviews)))))
