-- ===== src/Payments/Calm.antt =====
-- What the commands of backend/src/payments do to the bookings.
pub mod Disputes
pub mod Processing
pub mod Paying
use sosedi_app.Prelude.{String, inl, inr, refl, ℕ, ◌≡◌, ◌⊎◌}
use sosedi_app.Booking.Change.{Keeps, Keeps-same, Keeps-trans}
use sosedi_app.Booking.Change.Steps.{complete-Keeps}
use sosedi_app.Booking.Exclusive.{IsExclusive}
use sosedi_app.Booking.Exclusive.Rows.{same-IsExclusive}
use sosedi_app.Booking.Exclusive.Steps.{complete-IsExclusive}
use sosedi_app.Domain.{Db}
use sosedi_app.Domain.Failure.{ok}
use sosedi_app.Domain.Status.{DepositStatus}
use sosedi_app.Payments.Completion.{CompletionTrigger, complete_after_return}
use sosedi_app.Payments.Operations.{set_deposit}

-- The bookings and the closed periods are as they were.
pub record Calm (db db' : Db) : Type 0 where
  pub rows : db'.bookings ≡ db.bookings
  pub periods : db'.unavailable_periods ≡ db.unavailable_periods

pub Calm-refl : (db : Db) → Calm db db
Calm-refl db = record { rows = refl; periods = refl }

-- The deposits are so, too.
pub record Quiet (db db' : Db) : Type 0 where
  pub calm : Calm db db'
  pub deposits : db'.deposits ≡ db.deposits

pub Quiet-refl : (db : Db) → Quiet db db
Quiet-refl db = record { calm = Calm-refl db; deposits = refl }

pub Quiet-same : (db db' : Db) → db' ≡ db → Quiet db db'
Quiet-same db db' e = rw e (Quiet-refl db)

-- A completion comes last.
pub record Completes (db db' : Db) : Type 0 where
  pub before : Db
  pub calm : Calm db before
  pub booking_id : String
  pub at_time : ℕ
  pub trigger : CompletionTrigger
  pub count : ℕ
  pub completed : complete_after_return booking_id at_time trigger before ≡ ok (db', count)

abbrev pub Aftermath : Db → Db → Type 0
Aftermath db db' = Calm db db' ⊎ Completes db db'

pub Aftermath-IsExclusive : (db db' : Db) → Aftermath db db' → IsExclusive db → IsExclusive db'
Aftermath-IsExclusive db db' (inl c) v = same-IsExclusive db db' c.rows c.periods v
Aftermath-IsExclusive db db' (inr c) v =
    complete-IsExclusive c.booking_id c.at_time c.trigger c.before db' c.count
      (same-IsExclusive db c.before c.calm.rows c.calm.periods v) c.completed

pub Aftermath-Keeps : (db db' : Db) → Aftermath db db' → Keeps db db'
Aftermath-Keeps db db' (inl c) = Keeps-same db db' c.rows
Aftermath-Keeps db db' (inr c) =
    Keeps-trans db c.before db' (Keeps-same db c.before c.calm.rows)
      (complete-Keeps c.booking_id c.at_time c.trigger c.before db' c.count c.completed)

-- A deposit is to be settled, and a completion follows.
pub record Schedules (db db' : Db) : Type 0 where
  pub completes : Completes db db'
  pub deposit_id : String
  pub scheduled :
      completes.before.deposits ≡ set_deposit deposit_id DepositStatus.resolving db.deposits

abbrev pub Scheduling : Db → Db → Type 0
Scheduling db db' = Quiet db db' ⊎ Schedules db db'

pub Scheduling-Aftermath : (db db' : Db) → Scheduling db db' → Aftermath db db'
Scheduling-Aftermath db db' (inl q) = inl q.calm
Scheduling-Aftermath db db' (inr s) = inr s.completes
