-- ===== src/Booking/Change/Steps.antt =====
-- The bookings under the commands of backend/src/booking.
use sosedi_app.Prelude.{
  All-every, Bool, Bool-cases, List, String, any_none, ap, arith, eq_iff, false, find_first,
  find_first-All, find_first_holds, inl, inr, none, not, refl, some, true, update_many, update_row,
  ℕ, ◌&&◌, ◌==◌, ◌∙◌, ◌∷◌, ◌≡◌,
}
use sosedi_app.Booking.Cancel.{
  cancel_pending, cancel_reason, cancelled_bookings, confirmed_safe_deal,
}
use sosedi_app.Booking.Cancel.Laws.{cancel-cases, cancel_deposit_same}
use sosedi_app.Booking.Change.{
  All-selected, Keeps, Keeps-same, Keeps-trans, Kept, Kept-refl, Kept-status, only_row,
  update-Keeps,
}
use sosedi_app.Booking.Confirm.{
  booking_competing_cancellation_reason, cancelled_row, competitors, confirm, confirm_rows,
  confirm_tables, confirmed_row, may_confirm, write_confirm,
}
use sosedi_app.Booking.Confirm.Laws.{confirm-Confirms}
use sosedi_app.Booking.Conflicts.{mentions}
use sosedi_app.Booking.Create.{create, new_booking}
use sosedi_app.Booking.Create.Gate.{CreateContext}
use sosedi_app.Booking.Create.Laws.{Creates, create-cases}
use sosedi_app.Booking.Exclusive.{IsExclusive}
use sosedi_app.Booking.Exclusive.Confirmed.{log_competitors_same}
use sosedi_app.Booking.Expiry.{booking_pending_timeout_reason, expire_one, is_expired}
use sosedi_app.Booking.Expiry.Laws.{expire-cases}
use sosedi_app.Domain.{Booking, Db, booking_by_id, deposit_of}
use sosedi_app.Domain.Failure.{ok}
use sosedi_app.Domain.Status.{BookingStatus, booking_is}
use sosedi_app.Payments.Completion.{
  CompletionTrigger, complete_after_return, completed_row, is_returned_booking,
}
use sosedi_app.Payments.Completion.Laws.{complete-Outcome}
use sosedi_app.Payments.Policy.{MarketplacePolicy}
use sosedi_app.Workflow.{allows, cancel_allowed, complete_allowed, confirm_allowed, expiry_allowed}

-- A new row is in front, and has an identifier of its own.
pub create-Keeps :
    (c : CreateContext) (db db' : Db) (r : Booking) → create c db ≡ ok (db', r) → Keeps db db'
unfolding new_booking
create-Keeps c db db' r e = elim (create-cases c db db' r e) [
  | inl s ↦ Keeps-same db db' (ap (λ d. d.bookings) s.unchanged)
  | inr s ↦ λ k b h. (b, rw s.written (new_row_first s k b h), Kept-refl b)
]
  where
    differs : (new k i : String) → i == new ≡ false → i == k ≡ true → new == k ≡ false
    differs new k i h g = ground (arith, eq_iff i new, eq_iff i k, eq_iff new k)

    new_row_first :
        (s : Creates c db db' r) (k : String) (b : Booking)
        → booking_by_id k db ≡ some b
        → find_first (λ x. x.id == k) (new_booking c s.item s.period s.offer ∷ db.bookings) ≡ some b
    new_row_first s k b h =
        let other =
          find_first-All (λ x. x.id == c.booking_id ≡ false) (λ x. x.id == k) db.bookings {x = b}
            (any_none (λ x. x.id == c.booking_id) db.bookings s.fresh) h in
        let here = find_first_holds (λ x. x.id == k) db.bookings {x = b} h in
        rw (differs c.booking_id k b.id other here) h

-- Some bookings are cancelled, if they are pending.
pub Kept-cancelled :
    (reason : String) (ids : List String) (x : Booking)
    → Kept x (
        update_row
          (λ c. mentions ids c.id && booking_is BookingStatus.pending c.status)
          (cancelled_row reason)
          x)
Kept-cancelled reason ids x =
    elim (Bool-cases (mentions ids x.id && booking_is BookingStatus.pending x.status)) [
      | inl t ↦ rw t (
          Kept-status x BookingStatus.cancelled none (some reason)
            (expiry_allowed x.status (ground arith)))
      | inr t ↦ rw t (Kept-refl x)
    ]

-- The confirmed request becomes CONFIRMED, and its pending competitors CANCELLED.
pub confirm-Keeps :
    (lender_id k : String) (now : ℕ) (db db' : Db) (r : Booking)
    → IsExclusive db
    → confirm lender_id k now db ≡ ok (db', r)
    → Keeps db db'
unfolding write_confirm confirm_rows
confirm-Keeps lender_id k now db db' r v e =
    let c = confirm-Confirms lender_id k now db db' r e in
    let db1 : Db = record db {
      bookings = update_many (λ x. x.id == c.row.id) confirmed_row db.bookings;
    } in
    Keeps-trans db db1 db'
      (update-Keeps db db1 (λ x. x.id == c.row.id) confirmed_row (λ x. refl)
        (All-selected Kept c.row (λ x. x.id == c.row.id) confirmed_row db.bookings Kept-refl
          (λ x h. (eq_iff x.id c.row.id).0 h)
          (Kept-status c.row BookingStatus.confirmed none none
            (confirm_allowed c.row.status (pending_of now c.row c.waiting)))
          (only_row db _ v c.found))
        refl)
      (update-Keeps db1 db' _ (cancelled_row booking_competing_cancellation_reason) (λ x. refl)
        (All-every _ db1.bookings
          (Kept-cancelled booking_competing_cancellation_reason (competitors c.row now db)))
        (ap (λ d. d.bookings) c.written
          ∙ (log_competitors_same lender_id (competitors c.row now db)
              (confirm_tables c.row (competitors c.row now db) db)).0))
  where
    pending_of :
        (now : ℕ) (b : Booking)
        → may_confirm now b ≡ true
        → booking_is BookingStatus.pending b.status ≡ true
    pending_of now b h = ground arith

pub cancel-Keeps :
    (policy : MarketplacePolicy) (actor k operation_id : String) (now : ℕ) (db db' : Db)
    (r : Booking)
    → IsExclusive db
    → cancel_pending policy actor k operation_id now db ≡ ok (db', r)
    → Keeps db db'
cancel-Keeps policy actor k operation_id now db db' r v e =
    elim (cancel-cases policy actor k operation_id now db db' r e) [
      | inl s ↦ Keeps-same db db' (ap (λ d. d.bookings) s.unchanged)
      | inr s ↦
          let (rows, _, _, _) =
            cancel_deposit_same operation_id now (deposit_of s.row.id db)
              (cancelled_bookings actor s.row db) s.after_deposit s.deposited in
          update-Keeps db db' (λ x. x.id == s.row.id) (cancelled_row (cancel_reason actor s.row))
            (λ x. refl)
            (All-selected Kept s.row (λ x. x.id == s.row.id)
              (cancelled_row (cancel_reason actor s.row)) db.bookings Kept-refl
              (λ x h. (eq_iff x.id s.row.id).0 h)
              (Kept-status s.row BookingStatus.cancelled none (some (cancel_reason actor s.row)) (
                open_allows s.row (may_confirm now s.row) (confirmed_safe_deal s.row) s.open_now
                  (waits now s.row) (agreed s.row)))
              (only_row db _ v s.found))
            (ap (λ d. d.bookings) s.written ∙ rows)
    ]
  where
    waits :
        (now : ℕ) (b : Booking)
        → may_confirm now b ≡ true
        → booking_is BookingStatus.pending b.status ≡ true
    waits now b h = ground arith

    agreed :
        (b : Booking)
        → confirmed_safe_deal b ≡ true
        → booking_is BookingStatus.confirmed b.status ≡ true
    agreed b h = ground arith

    open_allows :
        (b : Booking) (p q : Bool)
        → (not p && not q) ≡ false
        → (p ≡ true → booking_is BookingStatus.pending b.status ≡ true)
        → (q ≡ true → booking_is BookingStatus.confirmed b.status ≡ true)
        → allows b.status BookingStatus.cancelled ≡ true
    open_allows b true q h f g = expiry_allowed b.status (f refl)
    open_allows b false true h f g = cancel_allowed b.status (g refl)
    open_allows b false false h f g = cc

pub expire-Keeps :
    (now : ℕ) (k : String) (db db' : Db) (n : ℕ) → expire_one now k db ≡ ok (db', n) → Keeps db db'
expire-Keeps now k db db' n e = elim (expire-cases now k db db' n e) [
  | inl s ↦ Keeps-same db db' (ap (λ d. d.bookings) s.1)
  | inr s ↦
      update-Keeps db db' (λ b. b.id == k && is_expired now b)
        (cancelled_row booking_pending_timeout_reason) (λ x. refl)
        (All-every _ db.bookings (Kept-expired now k)) (ap (λ d. d.bookings) s.written)
]
  where
    Kept-expired :
        (now : ℕ) (k : String) (x : Booking)
        → Kept x (
            update_row
              (λ b. b.id == k && is_expired now b)
              (cancelled_row booking_pending_timeout_reason)
              x)
    Kept-expired now k x = elim (Bool-cases (x.id == k && is_expired now x)) [
      | inl t ↦ rw t (
          Kept-status x BookingStatus.cancelled none (some booking_pending_timeout_reason)
            (expiry_allowed x.status (ground arith)))
      | inr t ↦ rw t (Kept-refl x)
    ]

Kept-completed :
    (k : String) (x : Booking) → Kept x (update_row (is_returned_booking k) completed_row x)
Kept-completed k x = elim (Bool-cases (is_returned_booking k x)) [
  | inl t ↦ rw t (
      Kept-status x BookingStatus.completed x.expires_at x.cancellation_reason
        (complete_allowed x.status (ground arith)))
  | inr t ↦ rw t (Kept-refl x)
]

pub complete-Keeps :
    (k : String) (now : ℕ) (trigger : CompletionTrigger) (db db' : Db) (n : ℕ)
    → complete_after_return k now trigger db ≡ ok (db', n)
    → Keeps db db'
complete-Keeps k now trigger db db' n e = elim (complete-Outcome k now trigger db db' n e) [
  | inl s ↦ Keeps-same db db' (ap (λ d. d.bookings) s.1)
  | inr s ↦
      update-Keeps db db' (is_returned_booking k) completed_row (λ x. refl)
        (All-every _ db.bookings (Kept-completed k)) (ap (λ d. d.bookings) s.1.written)
]
