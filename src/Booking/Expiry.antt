-- ===== src/Booking/Expiry.antt =====
-- backend/src/booking/booking-expiry.service.ts: requests that were not answered in time.
pub mod Laws
pub mod Complete
use sosedi_app.Prelude.{
  Bool, List, String, [], any, filter_rows, if◌then◌else◌, map, none, some, update_many, ℕ, ◌&&◌,
  ◌+◌, ◌==◌, ◌∷◌,
}
use sosedi_app.Booking.Confirm.{cancelled_row}
use sosedi_app.Booking.Conflicts.{cancel_deposits, log}
use sosedi_app.Domain.{Booking, Db, Transition, booking_event, create_event, is_due}
use sosedi_app.Domain.Failure.{Result, err, ok, ◌>>=◌, ◌>>◌}
use sosedi_app.Domain.Status.{BookingStatus, booking_is}

abbrev pub booking_pending_timeout_reason : String
booking_pending_timeout_reason = "PENDING_TIMEOUT"

abbrev pub is_expired : ℕ → Booking → Bool
is_expired now b = booking_is BookingStatus.pending b.status && is_due b.expires_at now

abbrev pub expiry_transition : String → Transition
expiry_transition k = record {
  booking_id = k;
  actor_id = none;
  actor_type = "SYSTEM";
  command = "EXPIRE";
  old_status = some BookingStatus.pending;
  new_status = BookingStatus.cancelled;
  reason = some booking_pending_timeout_reason;
}

abbrev pub expired_tables : ℕ → String → Db → Db
expired_tables now k db =
    log (expiry_transition k) "Время ответа владельца истекло. Заявка отменена." (record db {
      bookings =
          update_many (λ b. b.id == k && is_expired now b)
            (cancelled_row booking_pending_timeout_reason) db.bookings;
      deposits = cancel_deposits (k ∷ []) db.deposits;
    })

-- The transaction of one candidate, with the number of bookings that it expired.
unfoldable pub expire_one : ℕ → String → Db → Result (Db × ℕ)
unfolding create_event
expire_one now k db =
    if any (λ b. b.id == k && is_expired now b) db.bookings
    then (do
      db' ← create_event (booking_event k "BOOKING_PENDING_TIMEOUT") (expired_tables now k db)
      ok (db', 1))
    else ok (db, 0)

-- The loop over the candidates. An error in one transaction ends the loop; what the transactions
-- before it wrote stays.
unfoldable pub expire_all : ℕ → List String → Db → ℕ → Db × Result ℕ
unfolding expire_one
expire_all now [] db n = (db, ok n)
expire_all now (k ∷ ks) db n = elim (expire_one now k db) [
  | err e ↦ (db, err e)
  | ok (db', m) ↦ expire_all now ks db' (n + m)
]

-- `expirePending`
unfoldable pub expire_pending : ℕ → Db → Db × Result ℕ
unfolding expire_all
expire_pending now db =
    expire_all now (map (λ b. b.id) (filter_rows (is_expired now) db.bookings)) db 0
