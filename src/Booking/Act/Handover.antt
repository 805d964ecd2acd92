-- ===== src/Booking/Act/Handover.antt =====
-- The checks of `BookingActService.confirm` in backend/src/booking/booking-act.service.ts.
use sosedi_app.Prelude.{
  Option, String, arith, false, find_first, inl, inr, ltb, none, not, refl, some, true, ℕ, ◌&&◌,
  ◌==◌, ◌≡◌, ◌≤◌, ◌⊎◌,
}
use sosedi_app.Booking.Act.{check_handover, confirm_act, stage_status}
use sosedi_app.Booking.Act.Laws.{confirm_act-cases}
use sosedi_app.Booking.Deal.{bound_terms}
use sosedi_app.Booking.Terms.{Snapshot, is_offline}
use sosedi_app.Domain.{
  Booking, BookingAct, BookingDeposit, Db, Payment, deposit_of, participant_booking, payment_of,
}
use sosedi_app.Domain.Failure.{handover_not_held, handover_unpaid, ok, throw_if-eq-ok, throw_if-ok}
use sosedi_app.Domain.Status.{ActStage, DepositStatus, booking_is, deposit_is, payment_succeeded}

-- A paid booking whose deposit, if it has one, is held.
abbrev pub IsSecured : Snapshot → String → Db → Type 0
IsSecured s booking db =
    ((p : Payment) × (payment_of booking db ≡ some p) × (payment_succeeded p.status ≡ true))
    × ((1 ≤ s.money_minor.deposit)
        → (d : BookingDeposit) × (deposit_of booking db ≡ some d) × (d.status ≡ DepositStatus.held))

-- Whom the act waited for.
pub record IsSigned (actor booking act_id : String) (db db' : Db) (r : BookingAct) : Type 0 where
  pub row : Booking
  pub act : BookingAct
  pub found : participant_booking actor booking db ≡ some row
  pub act_found : find_first (λ a. a.id == act_id && a.booking_id == booking) db.acts ≡ some act
  pub not_author : act.author_id == actor ≡ false
  pub at_stage : booking_is (stage_status act.stage) row.status ≡ true
  pub secured :
      act.stage ≡ ActStage.handover
      → (s : Snapshot) → bound_terms row ≡ some s
      → is_offline s.payment_scenario ≡ false
      → IsSecured s booking db
  pub signed : r ≡ record act { confirmed_by_id = some actor; confirmed_at = r.confirmed_at }

paid :
    (o : Option Payment)
    → not (elim o [ none ↦ false | some p ↦ payment_succeeded p.status ]) ≡ false
    → (p : Payment) × (o ≡ some p) × (payment_succeeded p.status ≡ true)
paid none h = cc
paid (some p) h = (p, refl, ground arith)

held :
    (o : Option BookingDeposit) (n : ℕ)
    → (ltb 0 n && not (elim o [ none ↦ false | some d ↦ deposit_is DepositStatus.held d.status ]))
      ≡ false
    → 1 ≤ n
    → (d : BookingDeposit) × (o ≡ some d) × (d.status ≡ DepositStatus.held)
held none n h g = ground arith
held (some d) n h g = (d, refl, status_eq d.status (ground arith))
  where
    status_eq :
        (s : DepositStatus) → deposit_is DepositStatus.held s ≡ true → s ≡ DepositStatus.held
    status_eq s h = ground arith

handover-IsSecured :
    (stage : ActStage) (o : Option Snapshot) (booking : String) (db : Db)
    → check_handover stage o booking db ≡ ok tt
    → stage ≡ ActStage.handover
    → (s : Snapshot) → o ≡ some s
    → is_offline s.payment_scenario ≡ false
    → IsSecured s booking db
unfolding check_handover
handover-IsSecured stage o booking db e at_handover s bound online =
    let (p, e1) =
      throw_if-eq-ok _ handover_unpaid _ (rw (at_handover, bound, check_handover, online) at e) in
    let d = throw_if-ok _ handover_not_held e1 in
    (paid (payment_of booking db) p, held (deposit_of booking db) s.money_minor.deposit d)

-- An act that is confirmed for the first time is confirmed by the other participant, at its stage of
-- the booking; and where the act is a handover of a safe deal, the borrower has paid, and the
-- deposit, if there is one, is held.
pub confirm_act-IsSigned :
    (actor booking act_id : String) (now : ℕ) (db db' : Db) (r : BookingAct)
    → confirm_act actor booking act_id now db ≡ ok (db', r)
    → ((find_first (λ a. a.id == act_id && a.booking_id == booking) db.acts ≡ some r) × (db' ≡ db))
      ⊎ IsSigned actor booking act_id db db' r
confirm_act-IsSigned actor booking act_id now db db' r e =
    elim (confirm_act-cases actor booking act_id now db db' r e) [
      | inl s ↦ inl (s.found, s.unchanged)
      | inr s ↦ inr (record {
        row = s.row;
        act = s.act;
        found = s.found;
        act_found = s.act_found;
        not_author = s.other;
        at_stage = s.at_stage;
        secured = handover-IsSecured s.act.stage (bound_terms s.row) booking db s.checked;
        signed = rw s.result refl;
      })
    ]
