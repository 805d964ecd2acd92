-- ===== src/Payments/Dispute/Laws.antt =====
-- `resolveDispute` of backend/src/payments/dispute.service.ts.
use sosedi_app.Prelude.{
  Bool, Bool-cases, String, ap, arith, eqb, false, inl, inr, leb, not, not-false, num_eq, refl,
  some, subst₂, sym, true, ℕ, ◌&&◌, ◌+◌, ◌||◌, ◌∙◌, ◌≡◌, ◌⊎◌,
}
use sosedi_app.Prelude.Int.{negsuc, pos, ℤ}
use sosedi_app.Booking.Terms.{max_safe_integer}
use sosedi_app.Domain.{Booking, BookingDeposit, Db, FinancialDispute, booking_by_id, deposit_of}
use sosedi_app.Domain.Failure.{
  >>=-eq-ok, dispute_not_found, idempotency_key_missing, ok, ok-injective, ok-pair, or_throw-eq-ok,
  other_decision, resolution_mismatch, resolution_not_allowed, throw_if-eq-ok,
}
use sosedi_app.Domain.Status.{
  BookingStatus, DepositStatus, DisputeStatus, OperationKind, booking_is, deposit_is, dispute_is,
}
use sosedi_app.Payments.Dispute.{
  ResolveContext, decide, dispute_by_id, has_operation, resolution_leg, resolve_dispute,
  same_decision, write_decision,
}
use sosedi_app.Payments.Dispute.Saved.{write_decision-Saves}
use sosedi_app.Payments.Policy.{require_fake_safe_deal}
use sosedi_app.Text.{is_empty, trim}

abbrev Divides : FinancialDispute → BookingDeposit → Type 0
Divides g d = g.refund_to_borrower_amount + g.release_to_lender_amount ≡ d.amount

-- The decision that the answer shows, and what is found of it in the tables afterwards.
pub record Decides (c : ResolveContext) (db db' : Db) (g : FinancialDispute) : Type 0 where
  pub dispute : FinancialDispute
  pub booking : Booking
  pub deposit : BookingDeposit
  pub found : dispute_by_id c.dispute_id db ≡ some dispute
  pub booking_found : booking_by_id dispute.booking_id db ≡ some booking
  pub deposit_found : deposit_of dispute.booking_id db ≡ some deposit
  pub refund_kept : c.resolution.refund_to_borrower_minor ≡ pos g.refund_to_borrower_amount
  pub release_kept : c.resolution.release_to_lender_minor ≡ pos g.release_to_lender_amount
  pub divides : Divides g deposit
  pub saved : dispute_by_id c.dispute_id db' ≡ some g
  pub refund_made :
      has_operation dispute.id deposit.id OperationKind.refund g.refund_to_borrower_amount
        (trim c.idempotency_key)
        db'
      ≡ true
  pub release_made :
      has_operation dispute.id deposit.id OperationKind.release_to_lender g.release_to_lender_amount
        (trim c.idempotency_key)
        db'
      ≡ true
  pub first_or_same :
      ((dispute.status ≡ DisputeStatus.open_dispute)
        × (booking.status ≡ BookingStatus.returned)
        × (deposit.status ≡ DepositStatus.disputed)
        × (g.status ≡ DisputeStatus.resolved)
        × (deposit_of dispute.booking_id db'
            ≡ some (record deposit { status = DepositStatus.resolving })))
      ⊎ ((g ≡ dispute) × (db' ≡ db))

leg_eq : (z : ℤ) (n : ℕ) → resolution_leg z ≡ ok n → z ≡ pos n
unfolding resolution_leg
leg_eq (negsuc m) n h = cc
leg_eq (pos m) n h = elim (Bool-cases (leb m max_safe_integer)) [
  | inl t ↦ ap pos (ok-injective (rw (resolution_leg, t) at h))
  | inr t ↦ absurd (cc (rw (resolution_leg, t) at h))
]

same_legs :
    (c : ResolveContext) (refund release : ℕ) (f : FinancialDispute) (k : String) (db : Db)
    → not (same_decision c.admin_id c.resolution refund release (trim c.idempotency_key) f k db)
      ≡ false
    → (f.refund_to_borrower_amount ≡ refund)
      × (f.release_to_lender_amount ≡ release)
      × (has_operation f.id k OperationKind.refund refund (trim c.idempotency_key) db ≡ true)
      × (has_operation f.id k OperationKind.release_to_lender release (trim c.idempotency_key) db
          ≡ true)
same_legs c refund release f k db h =
    let (a, b, made, made_too) =
      all_of _ _ (eqb f.refund_to_borrower_amount refund) (eqb f.release_to_lender_amount release)
        (has_operation f.id k OperationKind.refund refund (trim c.idempotency_key) db)
        (has_operation f.id k OperationKind.release_to_lender release (trim c.idempotency_key) db)
        (not-false _ h) in
    (num_eq _ _ a, num_eq _ _ b, made, made_too)
  where
    all_of :
        (p q r s t u : Bool)
        → (p && (q && (r && (s && (t && u))))) ≡ true
        → (r ≡ true) × (s ≡ true) × (t ≡ true) × (u ≡ true)
    all_of p q r s t u h = (ground arith, ground arith, ground arith, ground arith)

first_decision :
    (b : Booking) (d : BookingDeposit)
    → (not (booking_is BookingStatus.returned b.status)
        || not (deposit_is DepositStatus.disputed d.status))
      ≡ false
    → (b.status ≡ BookingStatus.returned) × (d.status ≡ DepositStatus.disputed)
first_decision b d h = (returned b.status _ h, disputed d.status _ h)
  where
    returned :
        (s : BookingStatus) (q : Bool)
        → (not (booking_is BookingStatus.returned s) || q) ≡ false
        → s ≡ BookingStatus.returned
    returned s q h = ground arith

    disputed :
        (s : DepositStatus) (q : Bool)
        → (q || not (deposit_is DepositStatus.disputed s)) ≡ false
        → s ≡ DepositStatus.disputed
    disputed s q h = ground arith

-- The operation of a leg, for an amount and tables that are the same.
made_as :
    (c : ResolveContext) (f : FinancialDispute) (d : BookingDeposit) (kind : OperationKind)
    (m n : ℕ) (db db' : Db)
    → n ≡ m
    → db' ≡ db
    → has_operation f.id d.id kind m (trim c.idempotency_key) db ≡ true
    → has_operation f.id d.id kind n (trim c.idempotency_key) db' ≡ true
made_as c f d kind m n db db' same tables h =
    subst₂ (λ x y. has_operation f.id d.id kind x (trim c.idempotency_key) y ≡ true) (sym same)
      (sym tables) h

decide-Decides :
    (c : ResolveContext) (refund release : ℕ) (f : FinancialDispute) (b : Booking)
    (d : BookingDeposit) (db db' : Db) (g : FinancialDispute)
    → resolution_leg c.resolution.refund_to_borrower_minor ≡ ok refund
    → resolution_leg c.resolution.release_to_lender_minor ≡ ok release
    → dispute_by_id c.dispute_id db ≡ some f
    → booking_by_id f.booking_id db ≡ some b
    → deposit_of f.booking_id db ≡ some d
    → decide c refund release f b d db ≡ ok (db', g)
    → Decides c db db' g
unfolding decide
decide-Decides c refund release f b d db db' g leg_a leg_b found b_found d_found e =
    let (total, e1) =
      throw_if-eq-ok (not (eqb (refund + release) d.amount)) resolution_mismatch _ e in
    let sum = num_eq _ _ (not-false _ total) in
    elim (Bool-cases (dispute_is DisputeStatus.open_dispute f.status)) [
      | inl t ↦
          let (h, e2) =
            throw_if-eq-ok
              (not (booking_is BookingStatus.returned b.status)
                || not (deposit_is DepositStatus.disputed d.status))
              resolution_not_allowed (write_decision c refund release f d db) (rw t at e1) in
          let (saves, same) = write_decision-Saves c refund release f d db db' g found d_found e2 in
          let (returned, disputed) = first_decision b d h in
          record {
            dispute = f;
            booking = b;
            deposit = d;
            found = found;
            booking_found = b_found;
            deposit_found = d_found;
            refund_kept = rw same (leg_eq _ refund leg_a);
            release_kept = rw same (leg_eq _ release leg_b);
            divides = rw same sum;
            saved = rw same saves.saved;
            refund_made =
                made_as c f d OperationKind.refund refund _ db' db'
                  (ap (λ x. x.refund_to_borrower_amount) same) refl saves.refund_made;
            release_made =
                made_as c f d OperationKind.release_to_lender release _ db' db'
                  (ap (λ x. x.release_to_lender_amount) same) refl saves.release_made;
            first_or_same =
                inl (is_open f.status t, returned, disputed, rw same refl, saves.resolving);
          }
      | inr t ↦
          let (h, e2) =
            throw_if-eq-ok
              (not (
                same_decision c.admin_id c.resolution refund release (trim c.idempotency_key) f d.id
                  db))
              other_decision (ok (db, f)) (rw t at e1) in
          let same = sym (ok-pair e2).1 in
          let (a, r, made, made_too) = same_legs c refund release f d.id db h in
          record {
            dispute = f;
            booking = b;
            deposit = d;
            found = found;
            booking_found = b_found;
            deposit_found = d_found;
            refund_kept = rw (same, a) (leg_eq _ refund leg_a);
            release_kept = rw (same, r) (leg_eq _ release leg_b);
            divides = rw (same, a, r) sum;
            saved = rw (same, ← (ok-pair e2).0) found;
            refund_made =
                made_as c f d OperationKind.refund refund _ db db'
                  (ap (λ x. x.refund_to_borrower_amount) same ∙ a) (sym (ok-pair e2).0) made;
            release_made =
                made_as c f d OperationKind.release_to_lender release _ db db'
                  (ap (λ x. x.release_to_lender_amount) same ∙ r) (sym (ok-pair e2).0) made_too;
            first_or_same = inr (same, sym (ok-pair e2).0);
          }
    ]
  where
    is_open :
        (s : DisputeStatus)
        → dispute_is DisputeStatus.open_dispute s ≡ true
        → s ≡ DisputeStatus.open_dispute
    is_open s h = ground arith

-- A decision that is accepted divides the whole deposit of the disputed booking: its two legs are
-- the amounts of the request, and add up to the deposit. Afterwards the answer is the dispute that
-- is found by its identifier, and each leg that is not zero has its operation under the key of the
-- decision. It is the first one, on an open dispute of a RETURNED booking whose deposit is DISPUTED,
-- and leaves the dispute RESOLVED and the deposit RESOLVING; or it repeats the decision that the
-- dispute has already, and changes nothing.
pub resolve_dispute-Decides :
    (c : ResolveContext) (db db' : Db) (g : FinancialDispute)
    → resolve_dispute c db ≡ ok (db', g)
    → Decides c db db' g
unfolding resolve_dispute
resolve_dispute-Decides c db db' g e =
    let (_, _, e1) = >>=-eq-ok (require_fake_safe_deal c.policy) _ e in
    let (_, e2) = throw_if-eq-ok (is_empty (trim c.idempotency_key)) idempotency_key_missing _ e1 in
    let (refund, a, e3) = >>=-eq-ok (resolution_leg c.resolution.refund_to_borrower_minor) _ e2 in
    let (release, b, e4) = >>=-eq-ok (resolution_leg c.resolution.release_to_lender_minor) _ e3 in
    let (f, f_found, e5) = or_throw-eq-ok (dispute_by_id c.dispute_id db) dispute_not_found _ e4 in
    let (bk, b_found, e6) = or_throw-eq-ok (booking_by_id f.booking_id db) dispute_not_found _ e5 in
    let (d, d_found, e7) =
      or_throw-eq-ok (deposit_of f.booking_id db) dispute_not_found
        (λ d. decide c refund release f bk d db) e6 in
    decide-Decides c refund release f bk d db db' g a b f_found b_found d_found e7
