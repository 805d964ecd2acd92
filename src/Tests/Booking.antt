-- ===== src/Tests/Booking.antt =====
-- The lives of two requests.
use sosedi_app.Prelude.{
  All, [], false, find_first, map, refl, some, ℕ, ◌&&◌, ◌*◌, ◌+◌, ◌==◌, ◌↔◌, ◌∷◌, ◌≡◌, ◌≢◌, ◌≤◌,
  ◌⊎◌,
}
use sosedi_app.Prelude.Int.{pos}
use sosedi_app.Booking.Act.{confirm_act}
use sosedi_app.Booking.Act.Handover.{IsSigned, confirm_act-IsSigned}
use sosedi_app.Booking.Cancel.{cancel_pending}
use sosedi_app.Booking.Cancel.Repeat.{cancel_repeated}
use sosedi_app.Booking.Confirm.{confirm}
use sosedi_app.Booking.Confirm.Competition.{confirm_clears}
use sosedi_app.Booking.Conflicts.{competes}
use sosedi_app.Booking.Create.{create}
use sosedi_app.Booking.Create.Gate.{CreateContext, require_acceptance, require_approved_terms}
use sosedi_app.Booking.Create.Laws.{Repeats}
use sosedi_app.Booking.Create.Limits.{IsFresh, create-IsFresh}
use sosedi_app.Booking.Create.Quote.{snapshot_of}
use sosedi_app.Booking.Create.Repeat.{create_repeated}
use sosedi_app.Booking.Expiry.{expire_pending, is_expired}
use sosedi_app.Booking.Expiry.Complete.{expire_pending_complete}
use sosedi_app.Booking.Period.{BookingPeriod, check_period, parse_booking_period}
use sosedi_app.Booking.Period.Laws.{check_period_lem}
use sosedi_app.Booking.Terms.Reader.{Binding, read_bound_terms, read_terms}
use sosedi_app.Booking.Terms.Sound.{
  IsBoundTo, IsConsistent, read_bound_terms-IsBoundTo, read_terms-IsConsistent,
}
use sosedi_app.Booking.Terms.Store.{snapshot_json}
use sosedi_app.Domain.{Booking, BookingAct, Db, booking_event}
use sosedi_app.Domain.Failure.{commit, ok}
use sosedi_app.Domain.Status.{BookingStatus}
use sosedi_app.Payments.Policy.{assert_deposit_allowed}
use sosedi_app.Tests.Data.{
  agreed, anna, annas_booking, annas_terms, answer_of, asked, blank, empty_db, handed, handover_act,
  minute, policy, requested,
}
use sosedi_app.Text.{has_text, is_iso_timestamp, is_space}

creates_anna : create anna empty_db ≡ ok (asked, annas_booking)
unfolding create assert_deposit_allowed booking_event
creates_anna = refl

create-IsFresh_example :
    Repeats anna empty_db asked annas_booking ⊎ IsFresh anna empty_db asked annas_booking
create-IsFresh_example = create-IsFresh anna empty_db asked annas_booking creates_anna

-- Anna's request once more, an hour later, with other identifiers drawn.
abbrev anna_again : CreateContext
anna_again = record anna { now = 60 * minute; booking_id = "b9"; deposit_id = "d9" }

create_repeated_example : create anna_again asked ≡ ok (asked, annas_booking)
unfolding require_approved_terms require_acceptance parse_booking_period
create_repeated_example =
    create_repeated anna anna_again empty_db asked annas_booking _ _ creates_anna refl refl refl
      refl refl refl

abbrev agreed_booking : Booking
agreed_booking = answer_of blank (confirm "boris" "b1" minute requested)

confirms_anna : confirm "boris" "b1" minute requested ≡ ok (agreed, agreed_booking)
unfolding create confirm assert_deposit_allowed booking_event
confirms_anna = refl

confirm_clears_example :
    All
      (λ x.
        x.id ≢ agreed_booking.id
        → competes agreed_booking.item_id agreed_booking.start_date agreed_booking.end_date minute x
          ≡ false)
      agreed.bookings
confirm_clears_example =
    confirm_clears "boris" "b1" minute requested agreed agreed_booking confirms_anna

-- Vera's request is cancelled with the confirmation of Anna's.
statuses :
    map (λ b. b.status) agreed.bookings ≡ BookingStatus.cancelled ∷ BookingStatus.confirmed ∷ []
unfolding create confirm assert_deposit_allowed booking_event
statuses = refl

abbrev withdrawn : Db
withdrawn = commit asked (cancel_pending policy "anna" "b1" "o9" minute asked)

abbrev withdrawn_booking : Booking
withdrawn_booking = answer_of blank (cancel_pending policy "anna" "b1" "o9" minute asked)

cancels_anna :
    cancel_pending policy "anna" "b1" "o9" minute asked ≡ ok (withdrawn, withdrawn_booking)
unfolding create cancel_pending assert_deposit_allowed booking_event
cancels_anna = refl

cancel_repeated_example :
    cancel_pending policy "anna" "b1" "o8" 90000 withdrawn ≡ ok (withdrawn, withdrawn_booking)
cancel_repeated_example =
    cancel_repeated policy policy "anna" "b1" "o9" "o8" minute 90000 asked withdrawn
      withdrawn_booking cancels_anna

-- Twelve hours later.
abbrev late : ℕ
late = 50000000

expires_both : expire_pending late requested ≡ ((expire_pending late requested).0, ok 2)
unfolding create expire_pending assert_deposit_allowed booking_event
expires_both = refl

expire_pending_complete_example :
    All (λ x. is_expired late x ≡ false) (expire_pending late requested).0.bookings
expire_pending_complete_example =
    expire_pending_complete late requested (expire_pending late requested).0 2 expires_both

abbrev signed : Db
signed = commit handed (confirm_act "anna" "b1" "a1" minute handed)

abbrev signed_act : BookingAct
signed_act = answer_of handover_act (confirm_act "anna" "b1" "a1" minute handed)

signs_handover : confirm_act "anna" "b1" "a1" minute handed ≡ ok (signed, signed_act)
unfolding confirm_act booking_event has_text snapshot_json snapshot_of is_iso_timestamp is_space
signs_handover = refl

confirm_act-IsSigned_example :
    ((find_first (λ a. a.id == "a1" && a.booking_id == "b1") handed.acts ≡ some signed_act)
      × (signed ≡ handed))
    ⊎ IsSigned "anna" "b1" "a1" handed signed signed_act
confirm_act-IsSigned_example =
    confirm_act-IsSigned "anna" "b1" "a1" minute handed signed signed_act signs_handover

handover_status : map (λ b. b.status) signed.bookings ≡ BookingStatus.active ∷ []
unfolding confirm_act booking_event has_text snapshot_json snapshot_of is_iso_timestamp is_space
handover_status = refl

reads_terms : read_terms (some (snapshot_json annas_terms)) ≡ some annas_terms
unfolding read_terms has_text snapshot_json snapshot_of is_iso_timestamp is_space
reads_terms = refl

read_terms-IsConsistent_example : IsConsistent annas_terms
read_terms-IsConsistent_example =
    read_terms-IsConsistent (some (snapshot_json annas_terms)) annas_terms reads_terms

abbrev annas_binding : Binding
annas_binding = record {
  borrower_id = "anna";
  lender_id = "boris";
  days = pos 3;
  total_amount = 350000;
}

reads_bound : read_bound_terms (some (snapshot_json annas_terms)) annas_binding ≡ some annas_terms
unfolding read_bound_terms has_text snapshot_json snapshot_of is_iso_timestamp is_space
reads_bound = refl

read_bound_terms-IsBoundTo_example : IsBoundTo annas_binding annas_terms
read_bound_terms-IsBoundTo_example =
    read_bound_terms-IsBoundTo (some (snapshot_json annas_terms)) annas_binding annas_terms
      reads_bound

check_period_lem_example :
    ((p : BookingPeriod) × (check_period 110 112 100 ≡ ok p))
    ↔ ((100 ≤ 110) × (110 ≤ 112) × (112 + 1 ≤ 110 + 30) × (110 ≤ 100 + 90))
check_period_lem_example = check_period_lem 110 112 100
