-- ===== src/Market.antt =====
-- The commands of the services that write bookings, deposits and closed periods, as steps of one
-- system. A command runs as a transaction, and the steps do not overlap; the worker of
-- backend/src/payments/deposit-operation.processor.ts takes two steps, since the provider answers
-- between its transactions, with any outcome. The provider's memory is not rolled back.
pub mod Calendar
pub mod History
pub mod Deposits
pub mod Payouts
use sosedi_app.Prelude.{List, Option, String, [], none, some, ℕ, ◌∷◌}
use sosedi_app.Auth.{AuthUser}
use sosedi_app.Booking.Act.{CreateActDto, confirm_act, create_act}
use sosedi_app.Booking.Availability.{block_period, blocked, remove_unavailable}
use sosedi_app.Booking.Cancel.{cancel_pending, reject_extension}
use sosedi_app.Booking.Confirm.{confirm}
use sosedi_app.Booking.Create.{create}
use sosedi_app.Booking.Create.Gate.{CreateContext}
use sosedi_app.Booking.Expiry.{expire_one, expire_pending}
use sosedi_app.Booking.Period.{BookingPeriod}
use sosedi_app.Domain.{
  Db, DepositOperation, Item, OutboxEvent, SystemMessage, UploadIntent, UserBlock,
}
use sosedi_app.Domain.Failure.{Result, commit, err, ok}
use sosedi_app.Payments.Checkout.{CheckoutContext, checkout}
use sosedi_app.Payments.Deadline.{process_deadline}
use sosedi_app.Payments.Dispute.{ResolveContext, open_dispute, resolve_dispute}
use sosedi_app.Payments.Policy.{MarketplacePolicy}
use sosedi_app.Payments.Processor.{apply_outcome, claim}
use sosedi_app.Payments.Provider.{Provider, ProviderResult}
use sosedi_app.Payments.Retry.{retry_failed_operation}
use sosedi_app.Users.{block_user, unblock_user}

pub data Command : Type 0 where
  -- backend/src/booking
  create_booking : CreateContext → Command
  confirm_booking : String → String → ℕ → Command
  cancel_booking : MarketplacePolicy → String → String → String → ℕ → Command
  extend_booking : String → String → Command
  -- a whole run of the expiry, or the transaction of one of its candidates
  expire_bookings : ℕ → Command
  expire_booking : ℕ → String → Command
  close_period : String → String → String → BookingPeriod → Command
  open_period : String → String → String → Command
  draw_act : String → String → CreateActDto → Result (Unit {0}) → String → ℕ → Command
  sign_act : String → String → String → ℕ → Command
  -- backend/src/payments
  pay_booking : CheckoutContext → Command
  claim_operation : String → ℕ → Command
  apply_result : String → String → ℕ → ℕ → ProviderResult → ℕ → Command
  pass_deadline : ℕ → String → String → Command
  dispute_booking : String → String → String → ℕ → Command
  decide_dispute : ResolveContext → Command
  repeat_operation : MarketplacePolicy → String → String → String → ℕ → Command
  -- backend/src/users
  block_person : String → String → ℕ → List AuthUser → Command
  unblock_person : String → String → Command
  -- what else writes the items, the blocks of users, the uploads, the messages and the outbox
  other_services :
      List Item
      → List UserBlock
      → List UploadIntent
      → List SystemMessage
      → List OutboxEvent
      → Command

pub record World : Type 0 where
  pub db : Db
  pub provider : Provider

-- A transaction without a value.
abbrev pub commit_unit : Db → Result Db → Db
commit_unit db (ok db') = db'
commit_unit db (err e) = db

abbrev pub commit_claim : Db → Option (Db × DepositOperation) → Db
commit_claim db none = db
commit_claim db (some (db', o)) = db'

module _ (digest : String → String) where
  -- The database after a command.
  unfoldable pub step_db : World → Command → Db
  step_db w (create_booking c) = commit w.db (create c w.db)
  step_db w (confirm_booking lender k now) = commit w.db (confirm lender k now w.db)
  step_db w (cancel_booking policy actor k operation_id now) =
      commit w.db (cancel_pending policy actor k operation_id now w.db)
  step_db w (extend_booking actor k) = commit w.db (reject_extension actor k w.db)
  step_db w (expire_bookings now) = (expire_pending now w.db).0
  step_db w (expire_booking now k) = commit w.db (expire_one now k w.db)
  step_db w (close_period owner item k period) = commit w.db (block_period owner item k period w.db)
  step_db w (open_period owner item k) = commit w.db (remove_unavailable owner item k w.db)
  step_db w (draw_act actor booking dto verified k now) =
      commit w.db (create_act actor booking dto verified k now w.db)
  step_db w (sign_act actor booking k now) = commit w.db (confirm_act actor booking k now w.db)
  step_db w (pay_booking c) = commit w.db (checkout digest c w.provider w.db).1
  step_db w (claim_operation k now) = commit_claim w.db (claim k now w.db)
  step_db w (apply_result k booking attempts lease outcome now) =
      commit_unit w.db (apply_outcome k booking attempts lease outcome now w.db)
  step_db w (pass_deadline now k operation_id) =
      commit w.db (process_deadline now k operation_id w.db)
  step_db w (dispute_booking actor booking k now) =
      commit w.db (open_dispute actor booking k now w.db)
  step_db w (decide_dispute c) = commit w.db (resolve_dispute c w.db)
  step_db w (repeat_operation policy k key new_id now) =
      commit w.db (retry_failed_operation policy k key new_id now w.db)
  step_db w (block_person blocker blocked now users) =
      commit w.db (block_user blocker blocked now users w.db)
  step_db w (unblock_person blocker blocked) = unblock_user blocker blocked w.db
  step_db w (other_services items blocks intents messages outbox) = record w.db {
    items = items;
    user_blocks = blocks;
    upload_intents = intents;
    messages = messages;
    outbox = outbox;
  }

  -- The provider after a command: only the payment calls it within a step of this model, and a call
  -- of the worker lies between two steps.
  unfoldable pub step_provider : World → Command → Provider
  step_provider w (pay_booking c) = (checkout digest c w.provider w.db).0
  step_provider w _ = w.provider

  unfoldable pub step : World → Command → World
  unfolding step_db step_provider
  step w c = record { db = step_db w c; provider = step_provider w c }

  -- A history of commands, the first one first.
  unfoldable pub run : World → List Command → World
  unfolding step
  run w [] = w
  run w (c ∷ cs) = run (step w c) cs
