-- ===== src/Booking/Change.antt =====
-- How a command of backend/src/booking or backend/src/payments may change the rows of the bookings.
pub mod Steps
use sosedi_app.Prelude.{
  All, All-mono, Bool, Bool-cases, List, Option, Pairwise-mono, String, find_first, find_first-All,
  find_first_only, find_first-update_many, inl, inr, refl, some, subst, sym, true, update_many,
  update_row, ℕ, ◌==◌, ◌∙◌, ◌≡◌, ◌≢◌,
}
use sosedi_app.Booking.Exclusive.{Apart, IsExclusive}
use sosedi_app.Domain.{Booking, Db, booking_by_id}
use sosedi_app.Domain.Status.{BookingStatus}
use sosedi_app.Workflow.{Follows, Follows-once, Follows-trans, allows, stays}

-- A later version of a booking: the agreement is the same, the status has followed the contract.
pub record Kept (b b' : Booking) : Type 0 where
  pub same_id : b'.id ≡ b.id
  pub same_item : b'.item_id ≡ b.item_id
  pub same_borrower : b'.borrower_id ≡ b.borrower_id
  pub same_lender : b'.lender_id ≡ b.lender_id
  pub same_start : b'.start_date ≡ b.start_date
  pub same_end : b'.end_date ≡ b.end_date
  pub same_amount : b'.total_amount ≡ b.total_amount
  pub same_terms : b'.terms_snapshot ≡ b.terms_snapshot
  pub follows : Follows b.status b'.status

pub Kept-refl : (b : Booking) → Kept b b
Kept-refl b = record {
  same_id = refl;
  same_item = refl;
  same_borrower = refl;
  same_lender = refl;
  same_start = refl;
  same_end = refl;
  same_amount = refl;
  same_terms = refl;
  follows = stays;
}

pub Kept-trans : (a b c : Booking) → Kept a b → Kept b c → Kept a c
Kept-trans a b c k l = record {
  same_id = l.same_id ∙ k.same_id;
  same_item = l.same_item ∙ k.same_item;
  same_borrower = l.same_borrower ∙ k.same_borrower;
  same_lender = l.same_lender ∙ k.same_lender;
  same_start = l.same_start ∙ k.same_start;
  same_end = l.same_end ∙ k.same_end;
  same_amount = l.same_amount ∙ k.same_amount;
  same_terms = l.same_terms ∙ k.same_terms;
  follows = Follows-trans k.follows l.follows;
}

-- A row with another status, by one transition of the contract.
pub Kept-status :
    (b : Booking) (s : BookingStatus) (expires : Option ℕ) (reason : Option String)
    → allows b.status s ≡ true
    → Kept b (record b { status = s; expires_at = expires; cancellation_reason = reason })
Kept-status b s expires reason h = record {
  same_id = refl;
  same_item = refl;
  same_borrower = refl;
  same_lender = refl;
  same_start = refl;
  same_end = refl;
  same_amount = refl;
  same_terms = refl;
  follows = Follows-once b.status s h;
}

-- Every booking that is found before is found after, as a later version of it.
abbrev pub Keeps : Db → Db → Type 0
Keeps db db' =
    (k : String) (b : Booking)
    → booking_by_id k db ≡ some b
    → (b' : Booking) × (booking_by_id k db' ≡ some b') × Kept b b'

pub Keeps-same : (db db' : Db) → db'.bookings ≡ db.bookings → Keeps db db'
Keeps-same db db' e k b h = (b, rw e h, Kept-refl b)

pub Keeps-trans : (db db' db'' : Db) → Keeps db db' → Keeps db' db'' → Keeps db db''
Keeps-trans db db' db'' f g k b h =
    let (b', h', kept) = f k b h in
    let (b'', h'', kept') = g k b' h' in (b'', h'', Kept-trans b b' b'' kept kept')

pub update-Keeps :
    (db db' : Db) (p : Booking → Bool) (f : Booking → Booking)
    → ((x : Booking) → (f x).id ≡ x.id)
    → All (λ x. Kept x (update_row p f x)) db.bookings
    → db'.bookings ≡ update_many p f db.bookings
    → Keeps db db'
update-Keeps db db' p f ids kept e k b h = (
  update_row p f b,
  rw (e, find_first-update_many (λ x. x.id == k) p f db.bookings (same_test k), h),
  find_first-All (λ x. Kept x (update_row p f x)) (λ x. x.id == k) db.bookings {x = b} kept h,
)
  where
    same_test : (k : String) (x : Booking) → (update_row p f x).id == k ≡ x.id == k
    same_test k x = elim (Bool-cases (p x)) [ inl t ↦ rw (t, ids x) | inr t ↦ rw t ]

-- Where the update reaches one row only, what holds of that row is enough.
pub All-selected {κ} :
    (R : Booking → Booking → Type κ) (b : Booking) (p : Booking → Bool) (f : Booking → Booking)
    (rows : List Booking)
    → ((x : Booking) → R x x)
    → ((x : Booking) → p x ≡ true → x.id ≡ b.id)
    → R b (f b)
    → All (λ x. x.id ≡ b.id → x ≡ b) rows
    → All (λ x. R x (update_row p f x)) rows
All-selected R b p f rows reflexive selects changed only =
    All-mono (λ x. x.id ≡ b.id → x ≡ b) (λ x. R x (update_row p f x)) rows row only
  where
    row : (x : Booking) → (x.id ≡ b.id → x ≡ b) → R x (update_row p f x)
    row x same = elim (Bool-cases (p x)) [
      | inl t ↦ rw t (subst (λ y. R y (f y)) (sym (same (selects x t))) changed)
      | inr t ↦ rw t (reflexive x)
    ]

-- An exclusive calendar has no two bookings with one identifier.
pub only_row :
    (db : Db) (p : Booking → Bool) {b : Booking}
    → IsExclusive db
    → find_first p db.bookings ≡ some b
    → All (λ x. x.id ≡ b.id → x ≡ b) db.bookings
only_row db p {b} v found =
    find_first_only (λ x. x.id) p db.bookings {r = b}
      (Pairwise-mono Apart (λ x y. x.id ≢ y.id) db.bookings (λ x y a. a.different) v.apart) found
