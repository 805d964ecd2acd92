-- ===== src/Booking/Cancel/Repeat.antt =====
-- A repeated `cancelPending` of backend/src/booking/booking.service.ts.
use sosedi_app.Prelude.{
  Bool-cases, String, eq_refl, find_first-update_many, inl, inr, refl, some, true, update_row, ℕ,
  ◌==◌, ◌≡◌,
}
use sosedi_app.Booking.Cancel.{already_cancelled, cancel_pending, cancel_reason, cancelled_bookings}
use sosedi_app.Booking.Cancel.Laws.{Cancels, cancel-cases, cancel_deposit_same}
use sosedi_app.Booking.Confirm.{cancelled_row}
use sosedi_app.Domain.{Booking, Db, deposit_of, participant_booking, participates}
use sosedi_app.Domain.Failure.{ok}
use sosedi_app.Payments.Policy.{MarketplacePolicy}

-- A participant's cancellation that succeeded gives the same answer and changes nothing when the same
-- participant repeats it, at any later time and under any policy: no second refund is scheduled, and
-- no second event is sent.
pub cancel_repeated :
    (policy policy' : MarketplacePolicy) (actor k operation_id operation_id' : String)
    (now later : ℕ) (db db' : Db) (r : Booking)
    → cancel_pending policy actor k operation_id now db ≡ ok (db', r)
    → cancel_pending policy' actor k operation_id' later db' ≡ ok (db', r)
unfolding cancel_pending
cancel_repeated policy policy' actor k operation_id operation_id' now later db db' r e =
    elim (cancel-cases policy actor k operation_id now db db' r e) [
      | inl s ↦ rw (s.unchanged, cancel_pending, s.found, s.was) refl
      | inr s ↦
          let found : participant_booking actor k db' ≡ some r = rw s.result (found_after s) in
          let was : already_cancelled actor r ≡ true = rw s.result (was_cancelled s.row) in
          rw (cancel_pending, found, was) refl
    ]
  where
    was_cancelled :
        (b : Booking) → already_cancelled actor (cancelled_row (cancel_reason actor b) b) ≡ true
    was_cancelled b = eq_refl (cancel_reason actor b)

    party_same :
        (b x : Booking)
        → participates actor k
            (update_row (λ c. c.id == b.id) (cancelled_row (cancel_reason actor b)) x)
          ≡ participates actor k x
    party_same b x = elim (Bool-cases (x.id == b.id)) [ inl t ↦ rw t | inr t ↦ rw t ]

    found_after :
        (s : Cancels policy actor k operation_id now db db' r)
        → participant_booking actor k db' ≡ some (cancelled_row (cancel_reason actor s.row) s.row)
    found_after s =
        let (rows, _, _, _) =
          cancel_deposit_same operation_id now (deposit_of s.row.id db)
            (cancelled_bookings actor s.row db) s.after_deposit s.deposited in
        rw
          (
            s.written,
            rows,
            find_first-update_many (participates actor k) (λ c. c.id == s.row.id)
                (cancelled_row (cancel_reason actor s.row)) db.bookings (party_same s.row),
            s.found,
            eq_refl s.row.id,
          )
          refl
