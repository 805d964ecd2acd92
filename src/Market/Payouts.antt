-- ===== src/Market/Payouts.antt =====
-- The deposits under the acts, the commands of backend/src/payments, and any command of the market.
use sosedi_app.Prelude.{
  Bool-cases, List, Option, String, [], ap, inl, inr, none, refl, some, update_row, ℕ, ◌+◌, ◌==◌,
  ◌∷◌, ◌≡◌,
}
use sosedi_app.Booking.Act.{confirm_act, create_act, open_window, window_end}
use sosedi_app.Booking.Act.Drawing.{create_act-Quiet}
use sosedi_app.Booking.Act.Laws.{confirm_act-cases, zero_deposit-cases}
use sosedi_app.Booking.Availability.{block_period, blocked, remove_unavailable}
use sosedi_app.Booking.Availability.Laws.{block-Blocks, unblock_written}
use sosedi_app.Booking.Cancel.{cancel_pending, reject_extension}
use sosedi_app.Booking.Cancel.Laws.{reject_extension_fails}
use sosedi_app.Booking.Confirm.{confirm}
use sosedi_app.Booking.Create.{create}
use sosedi_app.Booking.Deal.{bound_terms}
use sosedi_app.Booking.Expiry.{expire_all, expire_one, expire_pending}
use sosedi_app.Domain.{BookingAct, BookingDeposit, Db, DepositOperation, FinancialDispute}
use sosedi_app.Domain.Failure.{Result, Result-cases, commit, err, ok}
use sosedi_app.Domain.Status.{DepositStatus}
use sosedi_app.Market.{
  Command, World, apply_result, block_person, cancel_booking, claim_operation, close_period,
  commit_claim, commit_unit, confirm_booking, create_booking, decide_dispute, dispute_booking,
  draw_act, expire_booking, expire_bookings, extend_booking, open_period, other_services,
  pass_deadline, pay_booking, repeat_operation, sign_act, step_db, unblock_person,
}
use sosedi_app.Market.Deposits.{
  cancel-IsBalanced, confirm-IsBalanced, create-IsBalanced, expire-IsBalanced,
}
use sosedi_app.Payments.Balance.{
  Harmless, IsBalanced, same-IsBalanced, set_deposit-IsBalanced, update-IsBalanced,
}
use sosedi_app.Payments.Balance.Settling.{apply_outcome-IsBalanced, complete-deposits}
use sosedi_app.Payments.Calm.{Quiet, Scheduling}
use sosedi_app.Payments.Calm.Disputes.{
  open_dispute-Opens, process_deadline-Scheduling, resolve_dispute-Scheduling, retry-Quiet,
}
use sosedi_app.Payments.Calm.Paying.{Pays, checkout-Pays}
use sosedi_app.Payments.Calm.Processing.{claim-Quiet}
use sosedi_app.Payments.Checkout.{checkout}
use sosedi_app.Payments.Completion.{zero_deposit_return}
use sosedi_app.Payments.Deadline.{process_deadline}
use sosedi_app.Payments.Dispute.{open_dispute, resolve_dispute}
use sosedi_app.Payments.Processor.{apply_outcome, claim}
use sosedi_app.Payments.Retry.{retry_failed_operation}
use sosedi_app.Users.{block_user, unblock_user}
use sosedi_app.Users.Laws.{block_user-BlocksUser}

open_window-IsBalanced :
    (k : String) (ends : Option ℕ) (db db' : Db)
    → db'.deposits ≡ open_window k ends db.deposits
    → IsBalanced db
    → IsBalanced db'
open_window-IsBalanced k none db db' e v = same-IsBalanced db db' e v
open_window-IsBalanced k (some t) db db' e v =
    update-IsBalanced db db' (λ d. d.booking_id == k)
      (λ d. record d { dispute_window_ends_at = some t }) (opened t) e v
  where
    opened :
        (t : ℕ) (d : BookingDeposit)
        → Harmless d (
            update_row
              (λ d. d.booking_id == k)
              (λ d. record d { dispute_window_ends_at = some t })
              d)
    opened t d = elim (Bool-cases (d.booking_id == k)) [
      | inl h ↦ rw h (record {
        same_id = refl;
        same_amount = refl;
        same_refunded = refl;
        same_released = refl;
        unresolved = λ r. r;
      })
      | inr h ↦ rw h (record {
        same_id = refl;
        same_amount = refl;
        same_refunded = refl;
        same_released = refl;
        unresolved = λ r. r;
      })
    ]

pub confirm_act-IsBalanced :
    (actor booking act_id : String) (now : ℕ) (db db' : Db) (r : BookingAct)
    → confirm_act actor booking act_id now db ≡ ok (db', r)
    → IsBalanced db
    → IsBalanced db'
confirm_act-IsBalanced actor booking act_id now db db' r e v =
    elim (confirm_act-cases actor booking act_id now db db' r e) [
      | inl s ↦ rw s.unchanged v
      | inr s ↦
          let middle : IsBalanced s.between =
            open_window-IsBalanced s.row.id (window_end s.act.stage (bound_terms s.row) now) db
              s.between (ap (λ d. d.deposits) s.moved) v in
          elim (zero_deposit-cases _ s.row.id now s.between db' s.completed) [
            | inl same ↦ rw same middle
            | inr (n, c) ↦
                same-IsBalanced s.between db'
                  (complete-deposits s.row.id now zero_deposit_return s.between db' n c) middle
          ]
    ]

pub open_dispute-IsBalanced :
    (actor booking k : String) (now : ℕ) (db db' : Db) (f : FinancialDispute)
    → open_dispute actor booking k now db ≡ ok (db', f)
    → IsBalanced db
    → IsBalanced db'
open_dispute-IsBalanced actor booking k now db db' f e v =
    let s = open_dispute-Opens actor booking k now db db' f e in
    set_deposit-IsBalanced db db' s.deposit.id DepositStatus.disputed refl
      (ap (λ x. x.deposits) s.written) v

Quiet-IsBalanced : (db db' : Db) → Quiet db db' → IsBalanced db → IsBalanced db'
Quiet-IsBalanced db db' q v = same-IsBalanced db db' q.deposits v

Scheduling-IsBalanced : (db db' : Db) → Scheduling db db' → IsBalanced db → IsBalanced db'
Scheduling-IsBalanced db db' (inl q) v = Quiet-IsBalanced db db' q v
Scheduling-IsBalanced db db' (inr s) v =
    let c = s.completes in
    same-IsBalanced c.before db'
      (complete-deposits c.booking_id c.at_time c.trigger c.before db' c.count c.completed)
      (set_deposit-IsBalanced db c.before s.deposit_id DepositStatus.resolving refl s.scheduled v)

Pays-IsBalanced : (db db' : Db) → Pays db db' → IsBalanced db → IsBalanced db'
Pays-IsBalanced db db' p v = elim p.deposits [
  | inl same ↦ same-IsBalanced db db' same v
  | inr (k, e) ↦ set_deposit-IsBalanced db db' k DepositStatus.held refl e v
]

commit-IsBalanced {ℓ} :
    {A : Type ℓ} (db : Db) (r : Result (Db × A))
    → IsBalanced db
    → ((db' : Db) (a : A) → r ≡ ok (db', a) → IsBalanced db')
    → IsBalanced (commit db r)
commit-IsBalanced db (ok (db', a)) v h = h db' a refl
commit-IsBalanced db (err e) v h = v

commit_unit-IsBalanced :
    (db : Db) (r : Result Db)
    → IsBalanced db
    → ((db' : Db) → r ≡ ok db' → IsBalanced db')
    → IsBalanced (commit_unit db r)
commit_unit-IsBalanced db (ok db') v h = h db' refl
commit_unit-IsBalanced db (err e) v h = v

commit_claim-IsBalanced :
    (db : Db) (r : Option (Db × DepositOperation))
    → IsBalanced db
    → ((db' : Db) (o : DepositOperation) → r ≡ some (db', o) → IsBalanced db')
    → IsBalanced (commit_claim db r)
commit_claim-IsBalanced db none v h = v
commit_claim-IsBalanced db (some (db', o)) v h = h db' o refl

expire_all-IsBalanced :
    (now : ℕ) (ks : List String) (db : Db) (n : ℕ)
    → IsBalanced db
    → IsBalanced (expire_all now ks db n).0
unfolding expire_all
expire_all-IsBalanced now [] db n v = v
expire_all-IsBalanced now (k ∷ ks) db n v = elim (Result-cases (expire_one now k db)) [
  | inl (error, h) ↦ rw (expire_all, h) v
  | inr ((db', m), h) ↦
      rw (expire_all, h)
        (expire_all-IsBalanced now ks db' (n + m) (expire-IsBalanced now k db db' m h v))
]

module _ (digest : String → String) where
  pub step-IsBalanced :
      (w : World) (c : Command) → IsBalanced w.db → IsBalanced (step_db digest w c)
  unfolding step_db expire_pending reject_extension unblock_user
  step-IsBalanced w (create_booking c) v =
      commit-IsBalanced w.db (create c w.db) v (λ db' r e. create-IsBalanced c w.db db' r e v)
  step-IsBalanced w (confirm_booking lender k now) v =
      commit-IsBalanced w.db (confirm lender k now w.db) v
        (λ db' r e. confirm-IsBalanced lender k now w.db db' r e v)
  step-IsBalanced w (cancel_booking policy actor k operation_id now) v =
      commit-IsBalanced w.db (cancel_pending policy actor k operation_id now w.db) v
        (λ db' r e. cancel-IsBalanced policy actor k operation_id now w.db db' r e v)
  step-IsBalanced w (extend_booking actor k) v =
      commit-IsBalanced w.db (reject_extension actor k w.db) v
        (λ db' r e. absurd (reject_extension_fails actor k w.db e))
  step-IsBalanced w (expire_bookings now) v = expire_all-IsBalanced now _ w.db 0 v
  step-IsBalanced w (expire_booking now k) v =
      commit-IsBalanced w.db (expire_one now k w.db) v
        (λ db' n e. expire-IsBalanced now k w.db db' n e v)
  step-IsBalanced w (close_period owner item k period) v =
      commit-IsBalanced w.db (block_period owner item k period w.db) v (λ db' r e.
        same-IsBalanced w.db db'
          (ap (λ d. d.deposits) (block-Blocks owner item k period w.db db' r e).written) v)
  step-IsBalanced w (open_period owner item k) v =
      commit-IsBalanced w.db (remove_unavailable owner item k w.db) v (λ db' r e.
        same-IsBalanced w.db db' (ap (λ d. d.deposits) (unblock_written owner item k w.db db' r e))
          v)
  step-IsBalanced w (draw_act actor booking dto verified k now) v =
      commit-IsBalanced w.db (create_act actor booking dto verified k now w.db) v (λ db' r e.
        Quiet-IsBalanced w.db db' (create_act-Quiet actor booking dto verified k now w.db db' r e)
          v)
  step-IsBalanced w (sign_act actor booking k now) v =
      commit-IsBalanced w.db (confirm_act actor booking k now w.db) v
        (λ db' r e. confirm_act-IsBalanced actor booking k now w.db db' r e v)
  step-IsBalanced w (pay_booking c) v =
      commit-IsBalanced w.db (checkout digest c w.provider w.db).1 v
        (λ db' r e. Pays-IsBalanced w.db db' (checkout-Pays digest c w.provider w.db db' r e) v)
  step-IsBalanced w (claim_operation k now) v =
      commit_claim-IsBalanced w.db (claim k now w.db) v
        (λ db' o e. Quiet-IsBalanced w.db db' (claim-Quiet k now w.db db' o e) v)
  step-IsBalanced w (apply_result k booking attempts lease outcome now) v =
      commit_unit-IsBalanced w.db (apply_outcome k booking attempts lease outcome now w.db) v
        (λ db' e. apply_outcome-IsBalanced k booking attempts lease outcome now w.db db' e v)
  step-IsBalanced w (pass_deadline now k operation_id) v =
      commit-IsBalanced w.db (process_deadline now k operation_id w.db) v (λ db' n e.
        Scheduling-IsBalanced w.db db' (process_deadline-Scheduling now k operation_id w.db db' n e)
          v)
  step-IsBalanced w (dispute_booking actor booking k now) v =
      commit-IsBalanced w.db (open_dispute actor booking k now w.db) v
        (λ db' f e. open_dispute-IsBalanced actor booking k now w.db db' f e v)
  step-IsBalanced w (decide_dispute c) v =
      commit-IsBalanced w.db (resolve_dispute c w.db) v
        (λ db' f e. Scheduling-IsBalanced w.db db' (resolve_dispute-Scheduling c w.db db' f e) v)
  step-IsBalanced w (repeat_operation policy k key new_id now) v =
      commit-IsBalanced w.db (retry_failed_operation policy k key new_id now w.db) v
        (λ db' o e. Quiet-IsBalanced w.db db' (retry-Quiet policy k key new_id now w.db db' o e) v)
  step-IsBalanced w (block_person blocker blocked now users) v =
      commit-IsBalanced w.db (block_user blocker blocked now users w.db) v (λ db' u e.
        same-IsBalanced w.db db'
          (block_user-BlocksUser blocker blocked now users w.db db' u e).deposits v)
  step-IsBalanced w (unblock_person blocker blocked) v = same-IsBalanced w.db _ refl v
  step-IsBalanced w (other_services items blocks intents messages outbox) v =
      same-IsBalanced w.db _ refl v
