-- ===== src/Payments/Completion/Safety.antt =====
-- When a returned booking may be completed, said without the code's case distinctions.
use sosedi_app.Prelude.{
  Bool, Bool-cases, Option, Option-cases, String, arith, eqb, false, find_first_holds,
  find_first-update_many, inl, inr, is_some, leb, none, not, refl, some, true, update_row, ℕ, ◌&&◌,
  ◌+◌, ◌==◌, ◌||◌, ◌≡◌, ◌⊎◌,
}
use sosedi_app.Domain.{
  Booking, BookingDeposit, Db, FinancialDispute, booking_by_id, deposit_of, dispute_of, is_due,
}
use sosedi_app.Domain.Failure.{ok, ok-injective}
use sosedi_app.Domain.Status.{BookingStatus, DepositStatus, deposit_is}
use sosedi_app.Payments.Completion.{
  CompletionTrigger, complete_after_return, completed_row, deposit_settled, dispute_decided,
  dispute_window_closed, is_decided, is_returned_booking, is_settled, is_undecided, settled_trigger,
  trigger_allows, zero_deposit_return,
}
use sosedi_app.Payments.Completion.Laws.{Completed, complete-Outcome}

-- The deposit is settled: RESOLVED, and paid out in full.
pub record Settled (d : BookingDeposit) : Type 0 where
  pub resolved : d.status ≡ DepositStatus.resolved
  pub in_full : d.refunded_amount + d.released_to_lender_amount ≡ d.amount

-- The dispute window is over, or the dispute is decided.
abbrev pub Undisputed : BookingDeposit → Option FinancialDispute → ℕ → Type 0
Undisputed d dispute now =
    (is_due d.dispute_window_ends_at now ≡ true) ⊎ (is_decided dispute ≡ true)

abbrev pub Justified :
    CompletionTrigger → Option BookingDeposit → Option FinancialDispute → ℕ → Type 0
Justified zero_deposit_return deposit dispute now = (deposit ≡ none) × (dispute ≡ none)
Justified dispute_window_closed deposit dispute now =
    (d : BookingDeposit) × (deposit ≡ some d)
    × (is_due d.dispute_window_ends_at now ≡ true)
    × (dispute ≡ none)
Justified dispute_decided deposit dispute now =
    (d : BookingDeposit) × (deposit ≡ some d) × (is_decided dispute ≡ true)
Justified deposit_settled deposit dispute now =
    (d : BookingDeposit) × (deposit ≡ some d) × Settled d × Undisputed d dispute now

none_of {ℓ} : {A : Type ℓ} (o : Option A) → is_some o ≡ false → o ≡ none
none_of none h = refl
none_of (some a) h = cc

is_settled-Settled : (d : BookingDeposit) → is_settled d ≡ true → Settled d
is_settled-Settled d h = record {
  resolved = status_eq d.status (left _ _ h);
  in_full = num_eq _ _ (right _ _ h);
}
  where
    left : (p q : Bool) → (p && q) ≡ true → p ≡ true
    left p q h = ground arith

    right : (p q : Bool) → (p && q) ≡ true → q ≡ true
    right p q h = ground arith

    num_eq : (n m : ℕ) → eqb n m ≡ true → n ≡ m
    num_eq n m h = ground arith

    status_eq :
        (s : DepositStatus)
        → deposit_is DepositStatus.resolved s ≡ true
        → s ≡ DepositStatus.resolved
    status_eq s h = ground arith

settled_trigger-Justified :
    (d : BookingDeposit) (dispute : Option FinancialDispute) (now : ℕ)
    → settled_trigger (some d) dispute now ≡ ok true
    → Settled d × Undisputed d dispute now
unfolding settled_trigger
settled_trigger-Justified d dispute now e = elim (Option-cases d.dispute_window_ends_at) [
  | inl missing ↦ absurd (cc (rw (settled_trigger, missing) at e))
  | inr (ends, found) ↦
      elim (Bool-cases (is_undecided dispute || (not (leb ends now) && not (is_decided dispute)))) [
        | inl t ↦ absurd (cc (rw (settled_trigger, found, t) at e))
        | inr t ↦ elim (Bool-cases (is_settled d)) [
          | inl s ↦ (
            is_settled-Settled d s,
            over ends found (leb ends now) (is_decided dispute) refl refl
                (second (is_undecided dispute) _ t),
          )
          | inr s ↦ absurd (cc (rw (settled_trigger, found, t, s) at e))
        ]
      ]
]
  where
    second : (b c : Bool) → (b || c) ≡ false → c ≡ false
    second b c h = ground arith

    over :
        (ends : ℕ)
        → d.dispute_window_ends_at ≡ some ends
        → (p q : Bool) → leb ends now ≡ p
        → is_decided dispute ≡ q
        → (not p && not q) ≡ false
        → Undisputed d dispute now
    over ends found true q l r h = inl (rw (found, l) refl)
    over ends found false true l r h = inr r
    over ends found false false l r h = cc

trigger-Justified :
    (trigger : CompletionTrigger) (deposit : Option BookingDeposit)
    (dispute : Option FinancialDispute) (now : ℕ)
    → trigger_allows trigger deposit dispute now ≡ ok true
    → Justified trigger deposit dispute now
unfolding trigger_allows settled_trigger
trigger-Justified zero_deposit_return none none now e = (refl, refl)
trigger-Justified zero_deposit_return none (some f) now e = cc
trigger-Justified zero_deposit_return (some d) dispute now e = cc
trigger-Justified dispute_window_closed none dispute now e = cc
trigger-Justified dispute_window_closed (some d) none now e =
    (d, refl, ground (arith, ok-injective e), refl)
trigger-Justified dispute_window_closed (some d) (some f) now e =
    absurd (contradiction (is_due d.dispute_window_ends_at now) (ok-injective e))
  where
    contradiction : (b : Bool) → (b && false) ≡ true → ⊥
    contradiction true h = cc
    contradiction false h = cc
trigger-Justified dispute_decided none dispute now e = cc
trigger-Justified dispute_decided (some d) dispute now e = (d, refl, ok-injective e)
trigger-Justified deposit_settled none dispute now e = cc
trigger-Justified deposit_settled (some d) dispute now e =
    let (settled, undisputed) = settled_trigger-Justified d dispute now e in
    (d, refl, settled, undisputed)

-- A call that completes a booking has found it RETURNED, and is justified by its trigger: a return
-- without a deposit has neither deposit nor dispute; a closed window is over and has no dispute; a
-- decision has a deposit and a decided dispute; and a settled deposit is RESOLVED, paid out in full,
-- and past its dispute window or its dispute. The booking's row is COMPLETED afterwards.
pub complete-Justified :
    (k : String) (now : ℕ) (trigger : CompletionTrigger) (db db' : Db)
    → complete_after_return k now trigger db ≡ ok (db', 1)
    → (b : Booking) × (booking_by_id k db ≡ some b)
      × (b.status ≡ BookingStatus.returned)
      × (booking_by_id k db' ≡ some (completed_row b))
      × Justified trigger (deposit_of k db) (dispute_of k db) now
complete-Justified k now trigger db db' e = elim (complete-Outcome k now trigger db db' 1 e) [
  | inl s ↦ absurd (one_not_zero s.0)
  | inr s ↦
      let c = s.1 in
      (
        c.row,
        c.found,
        c.returned,
        found_after c,
        trigger-Justified trigger (deposit_of k db) (dispute_of k db) now c.allowed,
      )
]
  where
    one_not_zero : ◌≡◌ {A = ℕ} 1 0 → ⊥
    one_not_zero h = omega arith

    same_test :
        (x : Booking) → (update_row (is_returned_booking k) completed_row x).id == k ≡ x.id == k
    same_test x = elim (Bool-cases (is_returned_booking k x)) [ inl t ↦ rw t | inr t ↦ rw t ]

    reached :
        (b : Booking)
        → b.id == k ≡ true
        → b.status ≡ BookingStatus.returned
        → is_returned_booking k b ≡ true
    reached b h s = rw (h, s) refl

    found_after :
        (c : Completed k now trigger db db') → booking_by_id k db' ≡ some (completed_row c.row)
    found_after c =
        let here = find_first_holds (λ x. x.id == k) db.bookings {x = c.row} c.found in
        rw
          (
            c.written,
            find_first-update_many (λ x. x.id == k) (is_returned_booking k) completed_row
                db.bookings same_test,
            c.found,
            reached c.row here c.returned,
          )
          refl
