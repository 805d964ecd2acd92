-- ===== src/Booking/Exclusive/Steps.antt =====
-- The commands of backend/src/booking that change a booking or a closed period.
use sosedi_app.Prelude.{
  All-delete_many, All-every, All-mono, All-zip, Bool, String, any_none, arith, eq_iff, false, inl,
  inr, refl, sym, update_row, ℕ, ◌&&◌, ◌==◌, ◌∙◌, ◌∷◌, ◌≡◌,
}
use sosedi_app.Booking.Availability.{block_period, blocked, remove_unavailable}
use sosedi_app.Booking.Availability.Laws.{block-Blocks, unblock_written}
use sosedi_app.Booking.Cancel.{cancel_pending, cancel_reason, cancelled_bookings}
use sosedi_app.Booking.Cancel.Laws.{cancel-cases, cancel_deposit_same}
use sosedi_app.Booking.Confirm.{cancelled_row}
use sosedi_app.Booking.Conflicts.{reserves}
use sosedi_app.Booking.Create.{create, new_booking}
use sosedi_app.Booking.Create.Gate.{CreateContext}
use sosedi_app.Booking.Create.Laws.{create-cases}
use sosedi_app.Booking.Create.Quote.{Offer}
use sosedi_app.Booking.Exclusive.{Apart, Clear, ClearOf, IsExclusive, Tame}
use sosedi_app.Booking.Exclusive.Confirmed.{Tame-cancelled}
use sosedi_app.Booking.Exclusive.Rows.{update-IsExclusive}
use sosedi_app.Booking.Expiry.{booking_pending_timeout_reason, expire_one, is_expired}
use sosedi_app.Booking.Expiry.Laws.{expire-cases}
use sosedi_app.Booking.Period.{BookingPeriod}
use sosedi_app.Domain.{Booking, Db, Item, UnavailablePeriod, deposit_of}
use sosedi_app.Domain.Failure.{ok}
use sosedi_app.Payments.Completion.{
  CompletionTrigger, complete_after_return, completed_row, is_returned_booking,
}
use sosedi_app.Payments.Completion.Laws.{complete-Outcome}
use sosedi_app.Payments.Policy.{MarketplacePolicy}

-- A new request is pending: it holds no day.
Apart-new :
    (c : CreateContext) (item : Item) (period : BookingPeriod) (offer : Offer) (b : Booking)
    → b.id == c.booking_id ≡ false
    → Apart (new_booking c item period offer) b
unfolding new_booking
Apart-new c item period offer b h = record {
  different = λ e. ground (arith, eq_iff b.id c.booking_id);
  disjoint = λ item rx ry. cc;
}

ClearOf-new :
    (c : CreateContext) (item : Item) (period : BookingPeriod) (offer : Offer)
    (p : UnavailablePeriod)
    → ClearOf (new_booking c item period offer) p
unfolding new_booking
ClearOf-new c item period offer p e r = cc

pub create-IsExclusive :
    (c : CreateContext) (db db' : Db) (r : Booking)
    → IsExclusive db
    → create c db ≡ ok (db', r)
    → IsExclusive db'
create-IsExclusive c db db' r v e = elim (create-cases c db db' r e) [
  | inl s ↦ rw s.unchanged v
  | inr s ↦ rw s.written (record {
    apart = (
      All-mono _ (Apart (new_booking c s.item s.period s.offer)) db.bookings
          (Apart-new c s.item s.period s.offer)
          (any_none (λ b. b.id == c.booking_id) db.bookings s.fresh),
      v.apart,
    );
    clear = (
      All-every (ClearOf (new_booking c s.item s.period s.offer)) db.unavailable_periods
          (ClearOf-new c s.item s.period s.offer),
      v.clear,
    );
  })
]

pub cancel-IsExclusive :
    (policy : MarketplacePolicy) (actor k operation_id : String) (now : ℕ) (db db' : Db)
    (r : Booking)
    → IsExclusive db
    → cancel_pending policy actor k operation_id now db ≡ ok (db', r)
    → IsExclusive db'
cancel-IsExclusive policy actor k operation_id now db db' r v e =
    elim (cancel-cases policy actor k operation_id now db db' r e) [
      | inl s ↦ rw s.unchanged v
      | inr s ↦
          let (rows, periods, _, _) =
            cancel_deposit_same operation_id now (deposit_of s.row.id db)
              (cancelled_bookings actor s.row db) s.after_deposit s.deposited in
          rw s.written (
            update-IsExclusive db _ (λ c. c.id == s.row.id)
              (cancelled_row (cancel_reason actor s.row))
              (All-every _ _ (Tame-cancelled (cancel_reason actor s.row) _)) rows periods v)
    ]

pub expire-IsExclusive :
    (now : ℕ) (k : String) (db db' : Db) (n : ℕ)
    → IsExclusive db
    → expire_one now k db ≡ ok (db', n)
    → IsExclusive db'
expire-IsExclusive now k db db' n v e = elim (expire-cases now k db db' n e) [
  | inl s ↦ rw s.1 v
  | inr s ↦ rw s.written (
      update-IsExclusive db _ (λ b. b.id == k && is_expired now b)
        (cancelled_row booking_pending_timeout_reason)
        (All-every _ _ (Tame-cancelled booking_pending_timeout_reason _)) refl refl v)
]

-- A completed booking gives its days back.
Tame-completed : (p : Booking → Bool) (b : Booking) → Tame b (update_row p completed_row b)
Tame-completed p b = ground arith

pub complete-IsExclusive :
    (k : String) (now : ℕ) (trigger : CompletionTrigger) (db db' : Db) (n : ℕ)
    → IsExclusive db
    → complete_after_return k now trigger db ≡ ok (db', n)
    → IsExclusive db'
complete-IsExclusive k now trigger db db' n v e = elim (complete-Outcome k now trigger db db' n e) [
  | inl s ↦ rw s.1 v
  | inr s ↦ rw s.1.written (
      update-IsExclusive db _ (is_returned_booking k) completed_row
        (All-every _ _ (Tame-completed _)) refl refl v)
]

-- A period is closed only where no booking holds a day of it.
ClearOf-blocked :
    (item : String) (period : BookingPeriod) (p : UnavailablePeriod) (b : Booking)
    → p.item_id ≡ item
    → p.start_date ≡ period.start_date
    → p.end_date ≡ period.end_date
    → reserves item period.start_date period.end_date b ≡ false
    → ClearOf b p
ClearOf-blocked item period p b ei es ee h same r =
    rw (es, ee) (ground (arith, eq_iff b.item_id item, sym same ∙ ei))

pub block-IsExclusive :
    (owner item k : String) (period : BookingPeriod) (db db' : Db) (r : UnavailablePeriod)
    → IsExclusive db
    → block_period owner item k period db ≡ ok (db', r)
    → IsExclusive db'
block-IsExclusive owner item k period db db' r v e =
    let s = block-Blocks owner item k period db db' r e in
    rw s.written (record {
      apart = v.apart;
      clear =
          All-zip (λ b. reserves item period.start_date period.end_date b ≡ false)
            (Clear db.unavailable_periods) (Clear (blocked item k period ∷ db.unavailable_periods))
            db.bookings
            (λ b free c.
              (ClearOf-blocked item period (blocked item k period) b refl refl refl free, c))
            (any_none _ db.bookings s.free) v.clear;
    })

pub unblock-IsExclusive :
    (owner item k : String) (db db' : Db) (u : Unit {0})
    → IsExclusive db
    → remove_unavailable owner item k db ≡ ok (db', u)
    → IsExclusive db'
unblock-IsExclusive owner item k db db' u v e =
    rw (unblock_written owner item k db db' u e) (record {
      apart = v.apart;
      clear =
          All-mono (Clear db.unavailable_periods) _ db.bookings
            (λ b c. All-delete_many (ClearOf b) _ db.unavailable_periods c) v.clear;
    })
