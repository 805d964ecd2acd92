-- ===== src/Booking/Confirm/Competition.antt =====
-- The competitors in `confirm` of backend/src/booking/booking.service.ts.
use sosedi_app.Prelude.{
  All, All-trivial, All-update_many, All-update_with, Bool, Bool-cases, List, String, [], ap, arith,
  eq_iff, eq_refl, false, filter_rows, inl, inr, map, not, refl, true, update_row, ℕ, ◌&&◌, ◌==◌,
  ◌||◌, ◌∙◌, ◌∷◌, ◌≡◌, ◌≢◌,
}
use sosedi_app.Booking.Confirm.{
  booking_competing_cancellation_reason, cancelled_row, competitors, confirm, confirm_rows,
  confirm_tables, confirmed_row, other_than, write_confirm,
}
use sosedi_app.Booking.Confirm.Laws.{confirm-Confirms}
use sosedi_app.Booking.Conflicts.{competes, mentions}
use sosedi_app.Booking.Exclusive.Confirmed.{log_competitors_same}
use sosedi_app.Domain.{Booking, Db}
use sosedi_app.Domain.Failure.{ok}
use sosedi_app.Domain.Status.{BookingStatus, booking_is}

clash : (b : Bool) → b ≡ true → b ≡ false → ⊥
clash b h g = cc

pub mentions_within :
    (p : Booking → Bool) (rows : List Booking) (ids : List String)
    → ((k : String)
        → mentions (map (λ c. c.id) (filter_rows p rows)) k ≡ true
        → mentions ids k ≡ true)
    → All (λ x. p x ≡ true → mentions ids x.id ≡ true) rows
mentions_within p [] ids h = tt
mentions_within p (y ∷ rows) ids h = elim (Bool-cases (p y)) [
  | inl t ↦ (
    λ _. h y.id (rw (t, eq_refl y.id) refl),
    mentions_within p rows ids (λ k g. h k (rw t (weaken (y.id == k) _ g))),
  )
  | inr t ↦ (λ q. absurd (clash (p y) q t), mentions_within p rows ids (λ k g. h k (rw t g)))
]
  where
    weaken : (b c : Bool) → c ≡ true → (b || c) ≡ true
    weaken b c h = ground arith

abbrev competes_with : Booking → ℕ → Booking → Bool
competes_with b now = competes b.item_id b.start_date b.end_date now

-- A competitor is among those that are cancelled.
abbrev Listed : Booking → ℕ → List String → Booking → Type 0
Listed b now ids x = other_than b.id (competes_with b now) x ≡ true → mentions ids x.id ≡ true

abbrev confirm_at : Booking → Booking → Booking
confirm_at b = update_row (λ c. c.id == b.id) confirmed_row

Listed-confirmed :
    (b : Booking) (now : ℕ) (ids : List String) (x : Booking)
    → Listed b now ids x
    → Listed b now ids (confirm_at b x)
Listed-confirmed b now ids x h = elim (Bool-cases (x.id == b.id)) [
  | inl t ↦ rw t (λ e. absurd (confirmed_waits (not (x.id == b.id)) (x.item_id == b.item_id) e))
  | inr t ↦ rw t h
]
  where
    confirmed_waits : (p q : Bool) → (p && (q && false)) ≡ true → ⊥
    confirmed_waits p q h = ground arith

-- The second update leaves no competitor.
row_clear :
    (b : Booking) (now : ℕ) (ids : List String) (x : Booking)
    → Listed b now ids x
    → (x.id == b.id ≡ false)
    → competes_with b now (
        update_row
          (λ c. mentions ids c.id && booking_is BookingStatus.pending c.status)
          (cancelled_row booking_competing_cancellation_reason)
          x)
      ≡ false
row_clear b now ids x h other =
    elim (Bool-cases (mentions ids x.id && booking_is BookingStatus.pending x.status)) [
      | inl t ↦ rw t (cancelled_clear (x.item_id == b.item_id))
      | inr t ↦ rw t (
          unlisted (competes_with b now x) (mentions ids x.id) (waits x)
            (λ c. h (rw (other, c) refl)) t)
    ]
  where
    cancelled_clear : (p : Bool) → (p && false) ≡ false
    cancelled_clear p = ground arith

    waits :
        (x : Booking)
        → competes_with b now x ≡ true
        → booking_is BookingStatus.pending x.status ≡ true
    waits x c = ground arith

    both : (p q : Bool) → p ≡ true → q ≡ true → (p && q) ≡ true
    both p q h g = ground arith

    unlisted :
        (c m : Bool) {s : Bool}
        → (c ≡ true → s ≡ true)
        → (c ≡ true → m ≡ true)
        → (m && s) ≡ false
        → c ≡ false
    unlisted true m {s} w l t = absurd (clash (m && s) (both m s (l refl) (w refl)) t)
    unlisted false m w l t = refl

-- After a request is confirmed, no other request competes with it any more: no row with another
-- identifier is a pending, unexpired request for a day of the confirmed period of the item.
pub confirm_clears :
    (lender_id k : String) (now : ℕ) (db db' : Db) (r : Booking)
    → confirm lender_id k now db ≡ ok (db', r)
    → All (λ x. x.id ≢ r.id → competes r.item_id r.start_date r.end_date now x ≡ false) db'.bookings
unfolding write_confirm confirm_rows competitors
confirm_clears lender_id k now db db' r e =
    let c = confirm-Confirms lender_id k now db db' r e in
    let ids = competitors c.row now db in
    let listed =
      mentions_within (other_than c.row.id (competes_with c.row now)) db.bookings ids (λ k h. h) in
    let first =
      All-update_many (Listed c.row now ids) (λ x. x.id == c.row.id) confirmed_row db.bookings
        (Listed-confirmed c.row now ids) listed in
    let rows : db'.bookings ≡ confirm_rows c.row ids db.bookings =
      ap (λ d. d.bookings) c.written
      ∙ (log_competitors_same lender_id ids (confirm_tables c.row ids db)).0 in
    rw (rows, c.result)
      (All-update_with (Listed c.row now ids) (λ x. Unit {0})
        (λ x. x.id ≢ c.row.id → competes_with c.row now x ≡ false)
        (λ x. mentions ids x.id && booking_is BookingStatus.pending x.status)
        (cancelled_row booking_competing_cancellation_reason) _
        (λ x l _ other.
          row_clear c.row now ids x l
            (differs x.id c.row.id (λ same. other (rw (kept ids x) same))))
        first (All-trivial _))
  where
    differs : (i j : String) → i ≢ j → i == j ≡ false
    differs i j h = ground (arith, eq_iff i j)

    kept :
        (ids : List String) (x : Booking)
        → (update_row
            (λ c. mentions ids c.id && booking_is BookingStatus.pending c.status)
            (cancelled_row booking_competing_cancellation_reason)
            x).id
          ≡ x.id
    kept ids x =
        elim (Bool-cases (mentions ids x.id && booking_is BookingStatus.pending x.status)) [
          | inl t ↦ rw t refl
          | inr t ↦ rw t refl
        ]
