-- ===== src/Tests/Market.antt =====
-- A history of the whole market.
use sosedi_app.Prelude.{List, [], map, refl, ◌∷◌, ◌≡◌}
use sosedi_app.Booking.Availability.{block_period}
use sosedi_app.Booking.Change.{Keeps}
use sosedi_app.Booking.Confirm.{confirm}
use sosedi_app.Booking.Create.{create}
use sosedi_app.Booking.Exclusive.{IsExclusive}
use sosedi_app.Booking.Expiry.{expire_pending}
use sosedi_app.Booking.Terms.Store.{snapshot_json}
use sosedi_app.Domain.{booking_event}
use sosedi_app.Domain.Status.{BookingStatus, DepositStatus}
use sosedi_app.Market.{
  Command, World, close_period, confirm_booking, create_booking, expire_bookings, pay_booking, run,
}
use sosedi_app.Market.History.{run-IsBalanced, run-IsExclusive, run-Keeps}
use sosedi_app.Payments.Balance.{IsBalanced}
use sosedi_app.Payments.Checkout.{checkout}
use sosedi_app.Payments.Policy.{assert_deposit_allowed}
use sosedi_app.Tests.Data.{anna, empty_db, minute, payment, same_text, vera}
use sosedi_app.Text.{has_text, is_iso_timestamp}

abbrev start : World
start = record { db = empty_db; provider = [] }

-- Both requests, the confirmation of Anna's, her payment, an attempt of Boris to close the days, and
-- the expiry.
abbrev story : List Command
story =
    create_booking anna
    ∷ create_booking vera
    ∷ confirm_booking "boris" "b1" minute
    ∷ pay_booking payment
    ∷ close_period "boris" "drill" "p1"
        (record { start_date = 739778; end_date = 739778; days = 1 })
    ∷ expire_bookings 50000000
    ∷ []

empty-IsExclusive : IsExclusive empty_db
empty-IsExclusive = record { apart = tt; clear = tt }

empty-IsBalanced : IsBalanced empty_db
empty-IsBalanced = record { apart = tt; sound = tt }

run-IsExclusive_example : IsExclusive (run same_text start story).db
run-IsExclusive_example = run-IsExclusive same_text start story empty-IsExclusive

run-Keeps_example : Keeps start.db (run same_text start story).db
run-Keeps_example = run-Keeps same_text start story empty-IsExclusive

run-IsBalanced_example : IsBalanced (run same_text start story).db
run-IsBalanced_example = run-IsBalanced same_text start story empty-IsBalanced

-- The story ends with Anna's booking confirmed and paid, and with no closed period.
story_statuses :
    map (λ b. b.status) (run same_text start story).db.bookings
    ≡ BookingStatus.cancelled ∷ BookingStatus.confirmed ∷ []
unfolding run create confirm checkout block_period expire_pending assert_deposit_allowed
    booking_event has_text snapshot_json is_iso_timestamp
story_statuses = refl

story_deposits :
    map (λ d. d.status) (run same_text start story).db.deposits
    ≡ DepositStatus.cancelled ∷ DepositStatus.held ∷ []
unfolding run create confirm checkout block_period expire_pending assert_deposit_allowed
    booking_event has_text snapshot_json is_iso_timestamp
story_deposits = refl
