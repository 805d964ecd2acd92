-- ===== src/Booking/Deal.antt =====
-- The terms of a booking as its row binds them: the call of `readBoundBookingTermsSnapshot` in
-- backend/src/booking/booking.service.ts and in the services that check a safe deal.
use sosedi_app.Prelude.{Bool, Option, false, none, not, some}
use sosedi_app.Booking.Terms.{Snapshot, is_offline}
use sosedi_app.Booking.Terms.Reader.{Binding, read_bound_terms}
use sosedi_app.Domain.{Booking, rental_days}

abbrev pub binding_of : Booking → Binding
binding_of b = record {
  borrower_id = b.borrower_id;
  lender_id = b.lender_id;
  days = rental_days b.start_date b.end_date;
  total_amount = b.total_amount;
}

unfoldable pub bound_terms : Booking → Option Snapshot
unfolding read_bound_terms
bound_terms b = read_bound_terms b.terms_snapshot (binding_of b)

-- The bound terms name the FAKE_SAFE_DEAL scenario.
unfoldable pub is_safe_deal : Booking → Bool
unfolding bound_terms
is_safe_deal b = elim (bound_terms b) [
  | none ↦ false
  | some s ↦ not (is_offline s.payment_scenario)
]
