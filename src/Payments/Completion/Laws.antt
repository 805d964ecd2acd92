-- ===== src/Payments/Completion/Laws.antt =====
-- What `completeBookingAfterReturnInTransaction` of backend/src/payments/deposit.service.ts finds and
-- writes.
use sosedi_app.Prelude.{
  Bool, Bool-cases, Option-cases, String, arith, false, inl, inr, some, true, ℕ, ◌∷◌, ◌≡◌, ◌⊎◌,
}
use sosedi_app.Domain.{Booking, Db, booking_by_id, booking_event, deposit_of, dispute_of}
use sosedi_app.Domain.Failure.{>>=-eq-ok, ok}
use sosedi_app.Domain.Laws.{create_event-eq-ok}
use sosedi_app.Domain.Status.{BookingStatus, booking_is}
use sosedi_app.Payments.Completion.{
  CompletionTrigger, complete_after_return, complete_if, completed_rows, trigger_allows,
  write_completion,
}

-- What a completion that took place has found and written.
pub record Completed (k : String) (now : ℕ) (trigger : CompletionTrigger) (db db' : Db)
    : Type 0 where
  pub row : Booking
  pub found : booking_by_id k db ≡ some row
  pub returned : row.status ≡ BookingStatus.returned
  pub allowed : trigger_allows trigger (deposit_of k db) (dispute_of k db) now ≡ ok true
  pub written : db' ≡ record (completed_rows k trigger db) {
    outbox = booking_event k "BOOKING_COMPLETED" ∷ db.outbox;
  }

abbrev pub Outcome : String → ℕ → CompletionTrigger → Db → Db → ℕ → Type 0
Outcome k now trigger db db' n = ((n ≡ 0) × (db' ≡ db)) ⊎ ((n ≡ 1) × Completed k now trigger db db')

eq-returned :
    (s : BookingStatus) → booking_is BookingStatus.returned s ≡ true → s ≡ BookingStatus.returned
eq-returned s h = ground arith

pub complete-Outcome :
    (k : String) (now : ℕ) (trigger : CompletionTrigger) (db db' : Db) (n : ℕ)
    → complete_after_return k now trigger db ≡ ok (db', n)
    → Outcome k now trigger db db' n
unfolding complete_after_return write_completion
complete-Outcome k now trigger db db' n e = elim (Option-cases (booking_by_id k db)) [
  | inl missing ↦ inl (ground arith, ground arith)
  | inr (b, found) ↦ elim (Bool-cases (booking_is BookingStatus.returned b.status)) [
    | inr other ↦ inl (ground arith, ground arith)
    | inl here ↦
        let rest = rw (found, complete_after_return, here) at e in
        allowed_case b found here
          (>>=-eq-ok (trigger_allows trigger (deposit_of k db) (dispute_of k db) now) _ rest)
  ]
]
  where
    allowed_case :
        (b : Booking)
        → booking_by_id k db ≡ some b
        → booking_is BookingStatus.returned b.status ≡ true
        → (allowed : Bool) × (trigger_allows trigger (deposit_of k db) (dispute_of k db) now
            ≡ ok allowed)
          × (complete_if allowed k trigger db ≡ ok (db', n))
        → Outcome k now trigger db db' n
    allowed_case b found here (false, t, h) = inl (ground arith, ground arith)
    allowed_case b found here (true, t, h) =
        let (db'', w, h') = >>=-eq-ok (write_completion k trigger db) (λ d. ok (d, 1)) h in
        let (fresh, same) =
          create_event-eq-ok (booking_event k "BOOKING_COMPLETED") (completed_rows k trigger db)
            db'' w in
        inr (
          ground arith,
          record {
            row = b;
            found = found;
            returned = eq-returned b.status here;
            allowed = t;
            written = ground arith;
          },
        )
