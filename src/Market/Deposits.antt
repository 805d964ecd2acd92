-- ===== src/Market/Deposits.antt =====
-- The deposits under the commands of backend/src/booking.
use sosedi_app.Prelude.{
  All-mono, Bool-cases, List, Option, Option-cases, String, [], any, any_none, ap, arith, eq_iff,
  false, inl, inr, none, refl, some, subst, sym, ℕ, ◌&&◌, ◌==◌, ◌||◌, ◌∙◌, ◌∷◌, ◌≡◌, ◌≢◌, ◌≤◌,
}
use sosedi_app.Booking.Cancel.{
  cancel_deposit, cancel_pending, cancelled_bookings, pre_handover_refund_key,
}
use sosedi_app.Booking.Cancel.Laws.{cancel-cases}
use sosedi_app.Booking.Confirm.{
  competitors, confirm, confirm_tables, log_competitors, write_confirm,
}
use sosedi_app.Booking.Confirm.Laws.{confirm-Confirms}
use sosedi_app.Booking.Conflicts.{cancel_deposits, mentions}
use sosedi_app.Booking.Create.{create, new_deposits}
use sosedi_app.Booking.Create.Gate.{CreateContext}
use sosedi_app.Booking.Create.Laws.{create-cases}
use sosedi_app.Booking.Create.Quote.{Offer}
use sosedi_app.Booking.Expiry.{expire_one}
use sosedi_app.Booking.Expiry.Laws.{expire-cases}
use sosedi_app.Domain.{Booking, BookingDeposit, Db, deposit_of}
use sosedi_app.Domain.Failure.{>>=-eq-ok, ok, ok-injective}
use sosedi_app.Domain.Status.{DepositStatus, OperationKind, deposit_is}
use sosedi_app.Payments.Balance.{
  Harmless-status, IsBalanced, same-IsBalanced, set_deposit-IsBalanced, update-IsBalanced,
}
use sosedi_app.Payments.Operations.{add_operation, pending_operation, set_deposit}
use sosedi_app.Payments.Policy.{MarketplacePolicy}

fresh_id :
    (c : CreateContext) (d : BookingDeposit)
    → (d.id == c.deposit_id || d.booking_id == c.booking_id) ≡ false
    → c.deposit_id ≢ d.id
fresh_id c d h e = ground (arith, eq_iff d.id c.deposit_id)

new_deposits-IsBalanced :
    (c : CreateContext) (offer : Offer) (db db' : Db)
    → new_deposits c offer db.deposits ≡ ok db'.deposits
    → IsBalanced db
    → IsBalanced db'
unfolding new_deposits
new_deposits-IsBalanced c offer db db' e v = elim (Option-cases offer.snapshot.deposit_terms) [
  | inl missing ↦ same-IsBalanced db db' (sym (ok-injective (rw (new_deposits, missing) at e))) v
  | inr (terms, found) ↦
      elim (Bool-cases
        (any (λ d. d.id == c.deposit_id || d.booking_id == c.booking_id) db.deposits)) [
          | inl t ↦ absurd (cc (rw (new_deposits, found, t) at e))
          | inr t ↦
              let written = sym (ok-injective (rw (new_deposits, found, t) at e)) in
              record {
                apart = rw written (
                  All-mono _ _ db.deposits (fresh_id c) (
                      any_none (λ d. d.id == c.deposit_id || d.booking_id == c.booking_id)
                        db.deposits t),
                  v.apart,
                );
                sound = rw written (
                  record {
                    bounded = zero_below offer.price.deposit_minor;
                    in_full = λ r. absurd (cc r);
                  },
                  v.sound,
                );
              }
        ]
]
  where
    zero_below : (n : ℕ) → 0 ≤ n
    zero_below n = omega arith

pub create-IsBalanced :
    (c : CreateContext) (db db' : Db) (r : Booking)
    → create c db ≡ ok (db', r)
    → IsBalanced db
    → IsBalanced db'
create-IsBalanced c db db' r e v = elim (create-cases c db db' r e) [
  | inl s ↦ rw s.unchanged v
  | inr s ↦
      new_deposits-IsBalanced c s.offer db db'
        (s.deposited ∙ ap ok (sym (ap (λ d. d.deposits) s.written))) v
]

cancel_deposits-IsBalanced :
    (ids : List String) (db db' : Db)
    → db'.deposits ≡ cancel_deposits ids db.deposits
    → IsBalanced db
    → IsBalanced db'
cancel_deposits-IsBalanced ids db db' e v =
    update-IsBalanced db db'
      (λ d. mentions ids d.booking_id && deposit_is DepositStatus.pending d.status)
      (λ d. record d { status = DepositStatus.cancelled })
      (λ d.
        Harmless-status DepositStatus.cancelled
          (λ x. mentions ids x.booking_id && deposit_is DepositStatus.pending x.status) d refl)
      e v

log_competitors-deposits :
    (lender_id : String) (ids : List String) (db : Db)
    → (log_competitors lender_id ids db).deposits ≡ db.deposits
unfolding log_competitors
log_competitors-deposits lender_id [] db = refl
log_competitors-deposits lender_id (k ∷ ks) db = log_competitors-deposits lender_id ks db

pub confirm-IsBalanced :
    (lender_id k : String) (now : ℕ) (db db' : Db) (r : Booking)
    → confirm lender_id k now db ≡ ok (db', r)
    → IsBalanced db
    → IsBalanced db'
unfolding write_confirm
confirm-IsBalanced lender_id k now db db' r e v =
    let c = confirm-Confirms lender_id k now db db' r e in
    cancel_deposits-IsBalanced (competitors c.row now db) db db'
      (ap (λ d. d.deposits) c.written
        ∙ log_competitors-deposits lender_id (competitors c.row now db)
            (confirm_tables c.row (competitors c.row now db) db))
      v

cancel_deposit-IsBalanced :
    (operation_id : String) (now : ℕ) (o : Option BookingDeposit) (db db' : Db)
    → cancel_deposit operation_id now o db ≡ ok db'
    → IsBalanced db
    → IsBalanced db'
unfolding cancel_deposit
cancel_deposit-IsBalanced operation_id now none db db' e v = subst IsBalanced (ok-injective e) v
cancel_deposit-IsBalanced operation_id now (some d) db db' e v =
    elim (Bool-cases (deposit_is DepositStatus.pending d.status)) [
      | inl p ↦
          set_deposit-IsBalanced db db' d.id DepositStatus.cancelled refl
            (sym (ap (λ x. x.deposits) (ok-injective (rw (cancel_deposit, p) at e)))) v
      | inr p ↦ elim (Bool-cases (deposit_is DepositStatus.held d.status)) [
        | inr q ↦ subst IsBalanced (ok-injective (rw (cancel_deposit, p, q) at e)) v
        | inl q ↦
            let (operations, _, e1) =
              >>=-eq-ok
                (add_operation
                  (pending_operation operation_id d.id OperationKind.refund d.amount
                    (pre_handover_refund_key d.id) none now)
                  db.operations)
                (λ operations. ok (record db {
                  deposits = set_deposit d.id DepositStatus.resolving db.deposits;
                  operations = operations;
                }))
                (rw (cancel_deposit, p, q) at e) in
            set_deposit-IsBalanced db db' d.id DepositStatus.resolving refl
              (sym (ap (λ x. x.deposits) (ok-injective e1))) v
      ]
    ]

pub cancel-IsBalanced :
    (policy : MarketplacePolicy) (actor k operation_id : String) (now : ℕ) (db db' : Db)
    (r : Booking)
    → cancel_pending policy actor k operation_id now db ≡ ok (db', r)
    → IsBalanced db
    → IsBalanced db'
cancel-IsBalanced policy actor k operation_id now db db' r e v =
    elim (cancel-cases policy actor k operation_id now db db' r e) [
      | inl s ↦ rw s.unchanged v
      | inr s ↦ same-IsBalanced s.after_deposit db' (ap (λ d. d.deposits) s.written) (
          cancel_deposit-IsBalanced operation_id now (deposit_of s.row.id db)
            (cancelled_bookings actor s.row db) s.after_deposit s.deposited
            (same-IsBalanced db (cancelled_bookings actor s.row db) refl v))
    ]

pub expire-IsBalanced :
    (now : ℕ) (k : String) (db db' : Db) (n : ℕ)
    → expire_one now k db ≡ ok (db', n)
    → IsBalanced db
    → IsBalanced db'
expire-IsBalanced now k db db' n e v = elim (expire-cases now k db db' n e) [
  | inl s ↦ rw s.1 v
  | inr s ↦ cancel_deposits-IsBalanced (k ∷ []) db db' (ap (λ d. d.deposits) s.written) v
]
