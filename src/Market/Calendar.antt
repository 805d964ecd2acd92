-- ===== src/Market/Calendar.antt =====
-- The calendar and the bookings under one command of the market.
use sosedi_app.Prelude.{List, Option, String, [], ap, inl, inr, none, refl, some, ℕ, ◌+◌, ◌∷◌, ◌≡◌}
use sosedi_app.Booking.Act.{confirm_act, create_act}
use sosedi_app.Booking.Act.Drawing.{create_act-Quiet}
use sosedi_app.Booking.Act.Laws.{confirm_act-IsExclusive, confirm_act-Keeps}
use sosedi_app.Booking.Availability.{block_period, blocked, remove_unavailable}
use sosedi_app.Booking.Availability.Laws.{block-Blocks, unblock_written}
use sosedi_app.Booking.Cancel.{cancel_pending, reject_extension}
use sosedi_app.Booking.Cancel.Laws.{reject_extension_fails}
use sosedi_app.Booking.Change.{Keeps, Keeps-same, Keeps-trans}
use sosedi_app.Booking.Change.Steps.{cancel-Keeps, confirm-Keeps, create-Keeps, expire-Keeps}
use sosedi_app.Booking.Confirm.{confirm}
use sosedi_app.Booking.Create.{create}
use sosedi_app.Booking.Exclusive.{IsExclusive}
use sosedi_app.Booking.Exclusive.Confirmed.{confirm-IsExclusive}
use sosedi_app.Booking.Exclusive.Rows.{same-IsExclusive}
use sosedi_app.Booking.Exclusive.Steps.{
  block-IsExclusive, cancel-IsExclusive, create-IsExclusive, expire-IsExclusive,
  unblock-IsExclusive,
}
use sosedi_app.Booking.Expiry.{expire_all, expire_one, expire_pending}
use sosedi_app.Domain.{Db, DepositOperation}
use sosedi_app.Domain.Failure.{Result, Result-cases, commit, err, ok}
use sosedi_app.Market.{
  Command, World, apply_result, block_person, cancel_booking, claim_operation, close_period,
  commit_claim, commit_unit, confirm_booking, create_booking, decide_dispute, dispute_booking,
  draw_act, expire_booking, expire_bookings, extend_booking, open_period, other_services,
  pass_deadline, pay_booking, repeat_operation, sign_act, step_db, unblock_person,
}
use sosedi_app.Payments.Calm.{
  Aftermath, Aftermath-IsExclusive, Aftermath-Keeps, Calm, Scheduling-Aftermath,
}
use sosedi_app.Payments.Calm.Disputes.{
  open_dispute-Calm, process_deadline-Scheduling, resolve_dispute-Scheduling, retry-Quiet,
}
use sosedi_app.Payments.Calm.Paying.{checkout-Pays}
use sosedi_app.Payments.Calm.Processing.{apply_outcome-Aftermath, claim-Quiet}
use sosedi_app.Payments.Checkout.{checkout}
use sosedi_app.Payments.Deadline.{process_deadline}
use sosedi_app.Payments.Dispute.{open_dispute, resolve_dispute}
use sosedi_app.Payments.Processor.{apply_outcome, claim}
use sosedi_app.Payments.Retry.{retry_failed_operation}
use sosedi_app.Users.{block_user, unblock_user}
use sosedi_app.Users.Laws.{block_user-IsExclusive, block_user-Keeps}

-- The calendar stays exclusive, and every booking is found again.
pub record Holds (db db' : Db) : Type 0 where
  pub exclusive : IsExclusive db'
  pub keeps : Keeps db db'

Holds-refl : (db : Db) → IsExclusive db → Holds db db
Holds-refl db v = record { exclusive = v; keeps = Keeps-same db db refl }

Holds-trans : (a b c : Db) → Holds a b → Holds b c → Holds a c
Holds-trans a b c h g = record {
  exclusive = g.exclusive;
  keeps = Keeps-trans a b c h.keeps g.keeps;
}

Holds-Calm : (db db' : Db) → IsExclusive db → Calm db db' → Holds db db'
Holds-Calm db db' v c = record {
  exclusive = same-IsExclusive db db' c.rows c.periods v;
  keeps = Keeps-same db db' c.rows;
}

Holds-Aftermath : (db db' : Db) → IsExclusive db → Aftermath db db' → Holds db db'
Holds-Aftermath db db' v a = record {
  exclusive = Aftermath-IsExclusive db db' a v;
  keeps = Aftermath-Keeps db db' a;
}

-- A command that throws changes nothing.
commit-Holds {ℓ} :
    {A : Type ℓ} (db : Db) (r : Result (Db × A))
    → IsExclusive db
    → ((db' : Db) (a : A) → r ≡ ok (db', a) → Holds db db')
    → Holds db (commit db r)
commit-Holds db (ok (db', a)) v h = h db' a refl
commit-Holds db (err e) v h = Holds-refl db v

commit_unit-Holds :
    (db : Db) (r : Result Db)
    → IsExclusive db
    → ((db' : Db) → r ≡ ok db' → Holds db db')
    → Holds db (commit_unit db r)
commit_unit-Holds db (ok db') v h = h db' refl
commit_unit-Holds db (err e) v h = Holds-refl db v

commit_claim-Holds :
    (db : Db) (r : Option (Db × DepositOperation))
    → IsExclusive db
    → ((db' : Db) (o : DepositOperation) → r ≡ some (db', o) → Holds db db')
    → Holds db (commit_claim db r)
commit_claim-Holds db none v h = Holds-refl db v
commit_claim-Holds db (some (db', o)) v h = h db' o refl

-- The loop over the candidates, which stops at an error.
expire_all-Holds :
    (now : ℕ) (ks : List String) (db : Db) (n : ℕ)
    → IsExclusive db
    → Holds db (expire_all now ks db n).0
unfolding expire_all
expire_all-Holds now [] db n v = Holds-refl db v
expire_all-Holds now (k ∷ ks) db n v = elim (Result-cases (expire_one now k db)) [
  | inl (error, h) ↦ rw (expire_all, h) (Holds-refl db v)
  | inr ((db', m), h) ↦
      let first : Holds db db' = record {
        exclusive = expire-IsExclusive now k db db' m v h;
        keeps = expire-Keeps now k db db' m h;
      } in
      rw (expire_all, h)
        (Holds-trans db db' _ first (expire_all-Holds now ks db' (n + m) first.exclusive))
]

module _ (digest : String → String) where
  pub step-Holds : (w : World) (c : Command) → IsExclusive w.db → Holds w.db (step_db digest w c)
  unfolding step_db expire_pending reject_extension unblock_user
  step-Holds w (create_booking c) v = commit-Holds w.db (create c w.db) v (λ db' r e. record {
    exclusive = create-IsExclusive c w.db db' r v e;
    keeps = create-Keeps c w.db db' r e;
  })
  step-Holds w (confirm_booking lender k now) v =
      commit-Holds w.db (confirm lender k now w.db) v (λ db' r e. record {
        exclusive = confirm-IsExclusive lender k now w.db db' r v e;
        keeps = confirm-Keeps lender k now w.db db' r v e;
      })
  step-Holds w (cancel_booking policy actor k operation_id now) v =
      commit-Holds w.db (cancel_pending policy actor k operation_id now w.db) v (λ db' r e. record {
        exclusive = cancel-IsExclusive policy actor k operation_id now w.db db' r v e;
        keeps = cancel-Keeps policy actor k operation_id now w.db db' r v e;
      })
  step-Holds w (extend_booking actor k) v =
      commit-Holds w.db (reject_extension actor k w.db) v
        (λ db' r e. absurd (reject_extension_fails actor k w.db e))
  step-Holds w (expire_bookings now) v = expire_all-Holds now _ w.db 0 v
  step-Holds w (expire_booking now k) v = commit-Holds w.db (expire_one now k w.db) v (λ db' n e.
      record {
        exclusive = expire-IsExclusive now k w.db db' n v e;
        keeps = expire-Keeps now k w.db db' n e;
      })
  step-Holds w (close_period owner item k period) v =
      commit-Holds w.db (block_period owner item k period w.db) v (λ db' r e. record {
        exclusive = block-IsExclusive owner item k period w.db db' r v e;
        keeps =
            Keeps-same w.db db'
              (ap (λ d. d.bookings) (block-Blocks owner item k period w.db db' r e).written);
      })
  step-Holds w (open_period owner item k) v =
      commit-Holds w.db (remove_unavailable owner item k w.db) v (λ db' r e. record {
        exclusive = unblock-IsExclusive owner item k w.db db' r v e;
        keeps =
            Keeps-same w.db db' (ap (λ d. d.bookings) (unblock_written owner item k w.db db' r e));
      })
  step-Holds w (draw_act actor booking dto verified k now) v =
      commit-Holds w.db (create_act actor booking dto verified k now w.db) v (λ db' r e.
        Holds-Calm w.db db' v (create_act-Quiet actor booking dto verified k now w.db db' r e).calm)
  step-Holds w (sign_act actor booking k now) v =
      commit-Holds w.db (confirm_act actor booking k now w.db) v (λ db' r e. record {
        exclusive = confirm_act-IsExclusive actor booking k now w.db db' r v e;
        keeps = confirm_act-Keeps actor booking k now w.db db' r v e;
      })
  step-Holds w (pay_booking c) v =
      commit-Holds w.db (checkout digest c w.provider w.db).1 v
        (λ db' r e. Holds-Calm w.db db' v (checkout-Pays digest c w.provider w.db db' r e).calm)
  step-Holds w (claim_operation k now) v =
      commit_claim-Holds w.db (claim k now w.db) v
        (λ db' o e. Holds-Calm w.db db' v (claim-Quiet k now w.db db' o e).calm)
  step-Holds w (apply_result k booking attempts lease outcome now) v =
      commit_unit-Holds w.db (apply_outcome k booking attempts lease outcome now w.db) v (λ db' e.
        Holds-Aftermath w.db db' v
          (apply_outcome-Aftermath k booking attempts lease outcome now w.db db' e))
  step-Holds w (pass_deadline now k operation_id) v =
      commit-Holds w.db (process_deadline now k operation_id w.db) v (λ db' n e.
        Holds-Aftermath w.db db' v (
          Scheduling-Aftermath w.db db'
            (process_deadline-Scheduling now k operation_id w.db db' n e)))
  step-Holds w (dispute_booking actor booking k now) v =
      commit-Holds w.db (open_dispute actor booking k now w.db) v
        (λ db' f e. Holds-Calm w.db db' v (open_dispute-Calm actor booking k now w.db db' f e))
  step-Holds w (decide_dispute c) v = commit-Holds w.db (resolve_dispute c w.db) v (λ db' f e.
      Holds-Aftermath w.db db' v
        (Scheduling-Aftermath w.db db' (resolve_dispute-Scheduling c w.db db' f e)))
  step-Holds w (repeat_operation policy k key new_id now) v =
      commit-Holds w.db (retry_failed_operation policy k key new_id now w.db) v
        (λ db' o e. Holds-Calm w.db db' v (retry-Quiet policy k key new_id now w.db db' o e).calm)
  step-Holds w (block_person blocker blocked now users) v =
      commit-Holds w.db (block_user blocker blocked now users w.db) v (λ db' u e. record {
        exclusive = block_user-IsExclusive blocker blocked now users w.db db' u v e;
        keeps = block_user-Keeps blocker blocked now users w.db db' u e;
      })
  step-Holds w (unblock_person blocker blocked) v =
      Holds-Calm w.db _ v (record { rows = refl; periods = refl })
  step-Holds w (other_services items blocks intents messages outbox) v =
      Holds-Calm w.db _ v (record { rows = refl; periods = refl })
