-- ===== src/Payments/Dispute.antt =====
-- backend/src/payments/dispute.service.ts: a participant disputes a returned booking, and an
-- administrator divides the deposit. The audit log and the evidence are left out.
pub mod Saved
pub mod Laws
use Prim.Native.String.{◌++◌}
use sosedi_app.Prelude.{
  Bool, List, Option, String, any, eqb, false, find_first, if◌then◌else◌, is_some, leb, none, not,
  some, update_many, ℕ, ◌&&◌, ◌+◌, ◌==◌, ◌||◌, ◌∷◌,
}
use sosedi_app.Prelude.Int.{negsuc, pos, ℤ}
use sosedi_app.Booking.Terms.{max_safe_integer}
use sosedi_app.Domain.{
  Booking, BookingDeposit, Db, DepositOperation, FinancialDispute, booking_by_id, deposit_of,
  dispute_of, is_after,
}
use sosedi_app.Domain.Failure.{
  Result, booking_not_found, dispute_not_allowed, dispute_not_found, err, idempotency_key_missing,
  ok, or_throw, other_decision, resolution_leg_invalid, resolution_mismatch, resolution_not_allowed,
  throw_if, unique_violation, ◌>>=◌, ◌>>◌,
}
use sosedi_app.Domain.Status.{
  BookingStatus, DepositStatus, DisputeStatus, OperationKind, booking_is, deposit_is, dispute_is,
  kind_is,
}
use sosedi_app.Payments.Completion.{complete_after_return, dispute_decided}
use sosedi_app.Payments.Operations.{add_operation, pending_operation, set_deposit}
use sosedi_app.Payments.Policy.{MarketplacePolicy, require_fake_safe_deal}
use sosedi_app.Text.{is_empty, trim}

abbrev pub is_participant : String → Booking → Bool
is_participant actor b = b.borrower_id == actor || b.lender_id == actor

abbrev pub new_dispute : String → String → String → ℕ → FinancialDispute
new_dispute k booking actor now = record {
  id = k;
  booking_id = booking;
  opened_by_id = actor;
  resolved_by_id = none;
  status = DisputeStatus.open_dispute;
  decision_reason = none;
  refund_to_borrower_amount = 0;
  release_to_lender_amount = 0;
  opened_at = now;
  resolved_at = none;
}

-- The condition under which `openDispute` refuses.
abbrev pub may_not_dispute : Booking → BookingDeposit → String → ℕ → Db → Bool
may_not_dispute b d booking now db =
    not (booking_is BookingStatus.returned b.status)
    || not (deposit_is DepositStatus.held d.status)
    || not (is_after d.dispute_window_ends_at now)
    || is_some (dispute_of booking db)

-- `openDispute`; `k` is the identifier of the dispute.
unfoldable pub open_dispute : String → String → String → ℕ → Db → Result (Db × FinancialDispute)
open_dispute actor booking k now db = do
  b ← or_throw (booking_by_id booking db) booking_not_found
  throw_if (not (is_participant actor b)) booking_not_found
  d ← or_throw (deposit_of booking db) dispute_not_allowed
  throw_if (may_not_dispute b d booking now db) dispute_not_allowed
  throw_if (any (λ f. f.id == k) db.disputes) unique_violation
  ok (
    record db {
      disputes = new_dispute k booking actor now ∷ db.disputes;
      deposits = set_deposit d.id DepositStatus.disputed db.deposits;
    },
    new_dispute k booking actor now,
  )

-- `ResolveDisputeDto`: the legs are numbers of the request.
pub record Resolution : Type 0 where
  pub reason : String
  pub refund_to_borrower_minor : ℤ
  pub release_to_lender_minor : ℤ

abbrev pub resolution_key : String → String → OperationKind → String
resolution_key dispute command kind =
    "dispute:"
    ++ dispute
    ++ ":resolve:"
    ++ command
    ++ ":"
    ++ (if kind_is OperationKind.refund kind then "refund" else "release-to-lender")

-- `assertResolutionLeg`: the leg as an amount.
unfoldable pub resolution_leg : ℤ → Result ℕ
resolution_leg (negsuc n) = err resolution_leg_invalid
resolution_leg (pos n) = if leb n max_safe_integer then ok n else err resolution_leg_invalid

-- `createResolutionOperation`
unfoldable pub create_resolution_operation :
    String
    → String
    → String
    → OperationKind
    → ℕ
    → String
    → ℕ
    → List DepositOperation
    → Result (List DepositOperation)
unfolding add_operation
create_resolution_operation new_id dispute deposit kind amount command now operations =
    if eqb amount 0
    then ok operations
    else add_operation
        (pending_operation new_id deposit kind amount (resolution_key dispute command kind) none
          now)
        operations

abbrev pub has_operation : String → String → OperationKind → ℕ → String → Db → Bool
has_operation dispute deposit kind amount command db =
    eqb amount 0
    || elim (find_first (λ o. o.idempotency_key == resolution_key dispute command kind)
        db.operations) [
          | none ↦ false
          | some o ↦ o.deposit_id == deposit && (kind_is o.kind kind && eqb o.amount amount)
        ]

-- The repetition of a decision: all of it is as it was.
abbrev pub same_decision :
    String → Resolution → ℕ → ℕ → String → FinancialDispute → String → Db → Bool
same_decision admin r refund release command f deposit db =
    elim f.resolved_by_id [ none ↦ false | some a ↦ a == admin ]
    && (elim f.decision_reason [ none ↦ false | some t ↦ t == r.reason ]
        && (eqb f.refund_to_borrower_amount refund
            && (eqb f.release_to_lender_amount release
                && (has_operation f.id deposit OperationKind.refund refund command db
                    && has_operation f.id deposit OperationKind.release_to_lender release command
                        db))))

abbrev pub decided_row : String → Resolution → ℕ → ℕ → ℕ → FinancialDispute → FinancialDispute
decided_row admin r refund release now f = record f {
  status = DisputeStatus.resolved;
  resolved_by_id = some admin;
  decision_reason = some r.reason;
  refund_to_borrower_amount = refund;
  release_to_lender_amount = release;
  resolved_at = some now;
}

-- Who decides what, when; and the identifiers that the new operations get.
pub record ResolveContext : Type 0 where
  pub policy : MarketplacePolicy
  pub admin_id : String
  pub dispute_id : String
  pub resolution : Resolution
  pub idempotency_key : String
  pub now : ℕ
  pub refund_id : String
  pub release_id : String

-- The writes of a decision.
unfoldable pub write_decision :
    ResolveContext → ℕ → ℕ → FinancialDispute → BookingDeposit → Db → Result (Db × FinancialDispute)
unfolding create_resolution_operation complete_after_return
write_decision c refund release f d db = do
  with_refund ←
      create_resolution_operation c.refund_id f.id d.id OperationKind.refund refund
        (trim c.idempotency_key) c.now db.operations
  operations ←
      create_resolution_operation c.release_id f.id d.id OperationKind.release_to_lender release
        (trim c.idempotency_key) c.now with_refund
  (db', n) ← complete_after_return f.booking_id c.now dispute_decided (record db {
    operations = operations;
    deposits = set_deposit d.id DepositStatus.resolving db.deposits;
    disputes =
        update_many (λ g. g.id == f.id) (decided_row c.admin_id c.resolution refund release c.now)
          db.disputes;
  })
  ok (db', decided_row c.admin_id c.resolution refund release c.now f)

abbrev pub dispute_by_id : String → Db → Option FinancialDispute
dispute_by_id k db = find_first (λ f. f.id == k) db.disputes

-- The decision once the dispute, its booking and its deposit are read.
unfoldable pub decide :
    ResolveContext
    → ℕ
    → ℕ
    → FinancialDispute
    → Booking
    → BookingDeposit
    → Db
    → Result (Db × FinancialDispute)
unfolding write_decision
decide c refund release f b d db = do
  throw_if (not (eqb (refund + release) d.amount)) resolution_mismatch
  if dispute_is DisputeStatus.open_dispute f.status
      then (do
        throw_if
            (not (booking_is BookingStatus.returned b.status)
              || not (deposit_is DepositStatus.disputed d.status))
            resolution_not_allowed
        write_decision c refund release f d db)
      else (do
        throw_if
            (not (
              same_decision c.admin_id c.resolution refund release (trim c.idempotency_key) f d.id
                db))
            other_decision
        ok (db, f))

-- `resolveDispute`
unfoldable pub resolve_dispute : ResolveContext → Db → Result (Db × FinancialDispute)
unfolding require_fake_safe_deal resolution_leg decide trim
resolve_dispute c db = do
  require_fake_safe_deal c.policy
  throw_if (is_empty (trim c.idempotency_key)) idempotency_key_missing
  refund ← resolution_leg c.resolution.refund_to_borrower_minor
  release ← resolution_leg c.resolution.release_to_lender_minor
  f ← or_throw (dispute_by_id c.dispute_id db) dispute_not_found
  b ← or_throw (booking_by_id f.booking_id db) dispute_not_found
  d ← or_throw (deposit_of f.booking_id db) dispute_not_found
  decide c refund release f b d db
