-- ===== src/Booking/Create/Repeat.antt =====
-- A repeated `create` of backend/src/booking/booking.service.ts.
use sosedi_app.Prelude.{eq_refl, inl, inr, refl, some, subst, subst₂, sym, true, ◌≡◌}
use sosedi_app.Booking.Create.{create, find_repeated, has_hash, new_booking}
use sosedi_app.Booking.Create.Gate.{
  CreateContext, LegalTerms, require_acceptance, require_approved_terms,
}
use sosedi_app.Booking.Create.Laws.{create-cases}
use sosedi_app.Booking.Period.{BookingPeriod, parse_booking_period}
use sosedi_app.Domain.{Booking, Db}
use sosedi_app.Domain.Failure.{ok}

-- The row that a repetition is answered by.
answered :
    (c : CreateContext) (db db' : Db) (r : Booking)
    → create c db ≡ ok (db', r)
    → (find_repeated c.borrower_id c.request_id db' ≡ some r) × (has_hash c.request_hash r ≡ true)
unfolding new_booking
answered c db db' r e = elim (create-cases c db db' r e) [
  | inl s ↦ (rw s.unchanged s.found, s.same_hash)
  | inr s ↦ (
    rw (s.written, s.result) (rw (eq_refl c.borrower_id, eq_refl c.request_id) refl),
    rw s.result (eq_refl c.request_hash),
  )
]

-- A creation that succeeded gives the same booking, and changes nothing, when the same borrower
-- sends the same content under the same request again: with any clock, policy and identifiers, as
-- long as the legal terms are approved, the request accepts them, and its period can still be asked
-- for on the day of the repetition. The borrower gets one booking for it.
pub create_repeated :
    (c again : CreateContext) (db db' : Db) (r : Booking) (terms : LegalTerms)
    (period : BookingPeriod)
    → create c db ≡ ok (db', r)
    → again.borrower_id ≡ c.borrower_id
    → again.request_id ≡ c.request_id
    → again.request_hash ≡ c.request_hash
    → require_approved_terms again.legal ≡ ok terms
    → require_acceptance again.dto terms ≡ ok tt
    → parse_booking_period again.dto.start_date again.dto.end_date again.today ≡ ok period
    → create again db' ≡ ok (db', r)
unfolding create
create_repeated c again db db' r terms period e borrower key content approved accepted still_open =
    let (found, known) = answered c db db' r e in
    let here : find_repeated again.borrower_id again.request_id db' ≡ some r =
      subst₂ (λ x y. find_repeated x y db' ≡ some r) (sym borrower) (sym key) found in
    let same : has_hash again.request_hash r ≡ true =
      subst (λ h. has_hash h r ≡ true) (sym content) known in
    rw (create, approved, accepted, still_open, here, same) refl
