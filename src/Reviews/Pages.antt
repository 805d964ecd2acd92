-- ===== src/Reviews/Pages.antt =====
-- `ReviewsService.listPublicForUser`: the published reviews of a user, the newest first, page by
-- page. `before` is the order of identifiers.
use sosedi_app.Prelude.{
  Bool, List, Option, String, [], filter_rows, find_first, if◌then◌else◌, is_some, leb, length, ltb,
  map, none, not, some, take, ℕ, ◌&&◌, ◌+◌, ◌==◌, ◌∷◌,
}
use sosedi_app.Prelude.Sort.{sort_by}
use sosedi_app.Domain.Failure.{Result, cursor_invalid, ok, or_throw, profile_not_found, ◌>>=◌}
use sosedi_app.Reviews.{AuthorRole, Profile, Review, ReviewDb, older}

pub record ReviewQuery : Type 0 where
  pub cursor : Option String
  pub limit : ℕ

pub record PublicReview : Type 0 where
  pub id : String
  pub author_role : AuthorRole
  pub rating : ℕ
  pub text : Option String
  pub published_at : ℕ
  pub created_at : ℕ

-- The average is a sum over a count, and `none` is null.
pub record ReviewPage : Type 0 where
  pub average : Option (ℕ × ℕ)
  pub count : ℕ
  pub items : List PublicReview
  pub next_cursor : Option String

abbrev pub has_profile : String → Profile → Bool
has_profile target u = u.id == target && (not u.is_deleted && not u.is_blocked)

-- `visibility`
abbrev pub is_visible : String → ℕ → Review → Bool
is_visible target now r =
    r.target_id == target && (not (is_some r.hidden_at) && leb r.publish_at now)

abbrev pub visible : String → ℕ → ReviewDb → List Review
visible target now db = filter_rows (is_visible target now) db.reviews

-- The newest first.
abbrev pub newer : (String → String → Bool) → Review → Review → Bool
newer before r s = older before s r

abbrev pub to_public : Review → PublicReview
to_public r = record {
  id = r.id;
  author_role = r.author_role;
  rating = r.rating;
  text = r.text;
  published_at = r.publish_at;
  created_at = r.created_at;
}

abbrev pub is_cursor : String → ℕ → String → Review → Bool
is_cursor target now k r = r.id == k && is_visible target now r

-- What follows the cursor; without one, everything.
abbrev pub after_cursor : (String → String → Bool) → Option Review → List Review → List Review
after_cursor before none rows = rows
after_cursor before (some c) rows = filter_rows (newer before c) rows

abbrev pub total_rating : List Review → ℕ
total_rating [] = 0
total_rating (r ∷ rs) = r.rating + total_rating rs

abbrev pub average_of : List Review → Option (ℕ × ℕ)
average_of [] = none
average_of rs = some (total_rating rs, length rs)

-- `page.at(-1)?.id ?? null`
abbrev pub last_id : List Review → Option String
last_id [] = none
last_id (r ∷ []) = some r.id
last_id (r ∷ rs) = last_id rs

abbrev pub page_of : ℕ → List Review → List Review → ReviewPage
page_of limit seen rows =
    let has_more = ltb limit (length rows) in
    let page = if has_more then take limit rows else rows in
    record {
      average = average_of seen;
      count = length seen;
      items = map to_public page;
      next_cursor = if has_more then last_id page else none;
    }

abbrev pub find_cursor : String → ℕ → Option String → ReviewDb → Result (Option Review)
find_cursor target now none db = ok none
find_cursor target now (some k) db = do
  c ← or_throw (find_first (is_cursor target now k) db.reviews) cursor_invalid
  ok (some c)

unfoldable pub list_public_for_user :
    (String → String → Bool) → String → ReviewQuery → ℕ → ReviewDb → Result ReviewPage
list_public_for_user before target query now db = do
  _ ← or_throw (find_first (has_profile target) db.users) profile_not_found
  cursor ← find_cursor target now query.cursor db
  let seen = visible target now db
  ok (
      page_of query.limit seen
        (take (query.limit + 1) (sort_by (newer before) (after_cursor before cursor seen))))
