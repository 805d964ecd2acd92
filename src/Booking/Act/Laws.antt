-- ===== src/Booking/Act/Laws.antt =====
-- `BookingActService.confirm` of backend/src/booking/booking-act.service.ts: what it finds and writes.
use sosedi_app.Prelude.{
  not-false, Bool, Bool-cases, String, ap, arith, eq_iff, false, find_first, inl, inr, is_some, not,
  refl, some, subst, sym, true, update_many, ℕ, ◌&&◌, ◌==◌, ◌∙◌, ◌∷◌, ◌≡◌, ◌⊎◌,
}
use sosedi_app.Booking.Act.{
  act_transition, check_handover, complete_zero_deposit, completes_at_once, confirm_act,
  confirm_found, confirmed_act, confirmed_by, moved_row, open_window, stage_event, stage_message,
  stage_status, window_end, write_act,
}
use sosedi_app.Booking.Change.{
  All-selected, Keeps, Keeps-same, Keeps-trans, Kept, Kept-refl, Kept-status, only_row,
  update-Keeps,
}
use sosedi_app.Booking.Change.Steps.{complete-Keeps}
use sosedi_app.Booking.Conflicts.{log}
use sosedi_app.Booking.Deal.{bound_terms}
use sosedi_app.Booking.Exclusive.{IsExclusive, Tame}
use sosedi_app.Booking.Exclusive.Rows.{update-IsExclusive}
use sosedi_app.Booking.Exclusive.Steps.{complete-IsExclusive}
use sosedi_app.Domain.{Booking, BookingAct, Db, booking_event, create_event, participant_booking}
use sosedi_app.Domain.Failure.{
  >>=-eq-ok, act_already_confirmed, err, invalid_booking_transition, ok, ok-injective, ok-pair,
  or_throw-eq-ok, own_act, terms_invalid, throw_if, throw_if-eq-ok, ◌>>◌,
}
use sosedi_app.Domain.Laws.{create_event-eq-ok}
use sosedi_app.Domain.Status.{ActStage, BookingStatus, booking_is, is_reserved}
use sosedi_app.Payments.Completion.{complete_after_return, zero_deposit_return}
use sosedi_app.Workflow.{activate_allowed, return_allowed}

-- The database between the confirmation and the completion of a return without a deposit.
abbrev pub act_tables : String → BookingAct → Booking → ℕ → Db → Db
act_tables actor a b now db =
    log (act_transition actor a.stage b) (stage_message a.stage) (record db {
      acts = update_many (λ c. c.id == a.id) (confirmed_act actor now) db.acts;
      deposits = open_window b.id (window_end a.stage (bound_terms b) now) db.deposits;
      bookings = update_many (λ c. c.id == b.id) (moved_row a.stage) db.bookings;
    })

pub record ConfirmsAct (actor booking act_id : String) (now : ℕ) (db db' : Db) (r : BookingAct)
    : Type 0 where
  pub row : Booking
  pub act : BookingAct
  pub found : participant_booking actor booking db ≡ some row
  pub act_found : find_first (λ a. a.id == act_id && a.booking_id == booking) db.acts ≡ some act
  pub other : act.author_id == actor ≡ false
  pub unconfirmed : is_some act.confirmed_at ≡ false
  pub at_stage : booking_is (stage_status act.stage) row.status ≡ true
  pub terms_hold : (is_some row.terms_snapshot && not (is_some (bound_terms row))) ≡ false
  pub checked : check_handover act.stage (bound_terms row) booking db ≡ ok tt
  pub between : Db
  pub moved : between ≡ record (act_tables actor act row now db) {
    outbox = booking_event row.id (stage_event act.stage) ∷ db.outbox;
  }
  pub completed :
      complete_zero_deposit (completes_at_once act.stage (bound_terms row)) row.id now between
      ≡ ok db'
  pub result : r ≡ confirmed_act actor now act

-- The answer to a repetition.
pub record AlreadyConfirmed (actor booking act_id : String) (db db' : Db) (r : BookingAct)
    : Type 0 where
  pub found : find_first (λ a. a.id == act_id && a.booking_id == booking) db.acts ≡ some r
  pub by_actor : confirmed_by actor r ≡ true
  pub unchanged : db' ≡ db

unit_eq : (u : Unit {0}) → u ≡ tt
unit_eq u = refl

written_act :
    (actor booking act_id : String) (now : ℕ) (b : Booking) (a : BookingAct) (db db' : Db)
    (r : BookingAct)
    → participant_booking actor booking db ≡ some b
    → find_first (λ a. a.id == act_id && a.booking_id == booking) db.acts ≡ some a
    → a.author_id == actor ≡ false
    → is_some a.confirmed_at ≡ false
    → (throw_if (not (booking_is (stage_status a.stage) b.status)) invalid_booking_transition
        >> (throw_if (is_some b.terms_snapshot && not (is_some (bound_terms b))) terms_invalid
            >> (check_handover a.stage (bound_terms b) booking db
                >> write_act actor a b (bound_terms b) now db)))
      ≡ ok (db', r)
    → ConfirmsAct actor booking act_id now db db' r
unfolding write_act
written_act actor booking act_id now b a db db' r found act_found other fresh e =
    let (h1, e1) =
      throw_if-eq-ok (not (booking_is (stage_status a.stage) b.status)) invalid_booking_transition _
        e in
    let (h2, e2) =
      throw_if-eq-ok (is_some b.terms_snapshot && not (is_some (bound_terms b))) terms_invalid _
        e1 in
    let (u, h3, e3) =
      >>=-eq-ok (check_handover a.stage (bound_terms b) booking db)
        (λ _. write_act actor a b (bound_terms b) now db) e2 in
    let (db1, w, e4) =
      >>=-eq-ok
        (create_event (booking_event b.id (stage_event a.stage)) (act_tables actor a b now db)) _
        e3 in
    let (_, same) =
      create_event-eq-ok (booking_event b.id (stage_event a.stage)) (act_tables actor a b now db)
        db1 w in
    let (db2, c, e5) =
      >>=-eq-ok (complete_zero_deposit (completes_at_once a.stage (bound_terms b)) b.id now db1)
        (λ d. ok (d, confirmed_act actor now a)) e4 in
    record {
      row = b;
      act = a;
      found = found;
      act_found = act_found;
      other = other;
      unconfirmed = fresh;
      at_stage = not-false _ h1;
      terms_hold = h2;
      checked = h3;
      between = db1;
      moved = same;
      completed = c ∙ ap ok (ok-pair e5).0;
      result = sym (ok-pair e5).1;
    }

confirm_found-cases :
    (actor booking act_id : String) (now : ℕ) (b : Booking) (a : BookingAct) (db db' : Db)
    (r : BookingAct)
    → participant_booking actor booking db ≡ some b
    → find_first (λ a. a.id == act_id && a.booking_id == booking) db.acts ≡ some a
    → confirm_found actor booking b a now db ≡ ok (db', r)
    → AlreadyConfirmed actor booking act_id db db' r ⊎ ConfirmsAct actor booking act_id now db db' r
unfolding confirm_found
confirm_found-cases actor booking act_id now b a db db' r found act_found e =
    elim (Bool-cases (is_some a.confirmed_at)) [
      | inl done ↦ elim (Bool-cases (confirmed_by actor a)) [
        | inl mine ↦
            let (_, e1) =
              throw_if-eq-ok (a.author_id == actor) own_act (ok (db, a)) (rw (done, mine) at e) in
            let (same_db, same) = ok-pair e1 in
            inl (record {
              found = act_found ∙ ap some same;
              by_actor = subst (λ x. confirmed_by actor x ≡ true) same mine;
              unchanged = sym same_db;
            })
        | inr theirs ↦
            let (_, e1) =
              throw_if-eq-ok (a.author_id == actor) own_act (err act_already_confirmed)
                (rw (done, theirs) at e) in
            absurd (cc e1)
      ]
      | inr fresh ↦
          let (other, e1) = throw_if-eq-ok (a.author_id == actor) own_act _ (rw fresh at e) in
          inr (written_act actor booking act_id now b a db db' r found act_found other fresh e1)
    ]

pub confirm_act-cases :
    (actor booking act_id : String) (now : ℕ) (db db' : Db) (r : BookingAct)
    → confirm_act actor booking act_id now db ≡ ok (db', r)
    → AlreadyConfirmed actor booking act_id db db' r ⊎ ConfirmsAct actor booking act_id now db db' r
unfolding confirm_act
confirm_act-cases actor booking act_id now db db' r e =
    let (b, found, e1) = or_throw-eq-ok _ _ _ e in
    let (a, act_found, e2) = or_throw-eq-ok _ _ _ e1 in
    confirm_found-cases actor booking act_id now b a db db' r found act_found e2

-- The confirmation itself moves one row along the contract, and holds no new days.
Tame-moved :
    (stage : ActStage) (b : Booking)
    → booking_is (stage_status stage) b.status ≡ true
    → Tame b (moved_row stage b)
Tame-moved stage b h = record {
  same_id = refl;
  same_item = refl;
  same_start = refl;
  same_end = refl;
  reserved = λ _. held stage b.status h;
}
  where
    held :
        (stage : ActStage) (s : BookingStatus)
        → booking_is (stage_status stage) s ≡ true
        → is_reserved s ≡ true
    held stage s h = ground arith

Kept-moved :
    (stage : ActStage) (b : Booking)
    → booking_is (stage_status stage) b.status ≡ true
    → Kept b (moved_row stage b)
Kept-moved ActStage.handover b h =
    Kept-status b BookingStatus.active b.expires_at b.cancellation_reason
      (activate_allowed b.status h)
Kept-moved ActStage.return b h =
    Kept-status b BookingStatus.returned b.expires_at b.cancellation_reason
      (return_allowed b.status h)

Tame-refl : (b : Booking) → Tame b b
Tame-refl b = record {
  same_id = refl;
  same_item = refl;
  same_start = refl;
  same_end = refl;
  reserved = λ h. h;
}

-- The completion that follows a return without a deposit.
pub zero_deposit-cases :
    (now_completes : Bool) (k : String) (now : ℕ) (db db' : Db)
    → complete_zero_deposit now_completes k now db ≡ ok db'
    → (db' ≡ db) ⊎ ((n : ℕ) × (complete_after_return k now zero_deposit_return db ≡ ok (db', n)))
unfolding complete_zero_deposit
zero_deposit-cases false k now db db' e = inl (sym (ok-injective e))
zero_deposit-cases true k now db db' e =
    let ((db1, n), c, e1) =
      >>=-eq-ok (complete_after_return k now zero_deposit_return db) (λ x. ok x.0) e in
    inr (n, c ∙ ap (λ d. ok (d, n)) (ok-injective e1))

pub confirm_act-IsExclusive :
    (actor booking act_id : String) (now : ℕ) (db db' : Db) (r : BookingAct)
    → IsExclusive db
    → confirm_act actor booking act_id now db ≡ ok (db', r)
    → IsExclusive db'
confirm_act-IsExclusive actor booking act_id now db db' r v e =
    elim (confirm_act-cases actor booking act_id now db db' r e) [
      | inl s ↦ rw s.unchanged v
      | inr s ↦
          let middle : IsExclusive s.between =
            update-IsExclusive db s.between (λ c. c.id == s.row.id) (moved_row s.act.stage)
              (All-selected Tame s.row (λ c. c.id == s.row.id) (moved_row s.act.stage) db.bookings
                Tame-refl (λ x h. (eq_iff x.id s.row.id).0 h)
                (Tame-moved s.act.stage s.row s.at_stage) (only_row db _ v s.found))
              (ap (λ d. d.bookings) s.moved) (ap (λ d. d.unavailable_periods) s.moved) v in
          elim (zero_deposit-cases _ s.row.id now s.between db' s.completed) [
            | inl same ↦ rw same middle
            | inr (n, c) ↦
                complete-IsExclusive s.row.id now zero_deposit_return s.between db' n middle c
          ]
    ]

pub confirm_act-Keeps :
    (actor booking act_id : String) (now : ℕ) (db db' : Db) (r : BookingAct)
    → IsExclusive db
    → confirm_act actor booking act_id now db ≡ ok (db', r)
    → Keeps db db'
confirm_act-Keeps actor booking act_id now db db' r v e =
    elim (confirm_act-cases actor booking act_id now db db' r e) [
      | inl s ↦ Keeps-same db db' (ap (λ d. d.bookings) s.unchanged)
      | inr s ↦
          Keeps-trans db s.between db'
            (update-Keeps db s.between (λ c. c.id == s.row.id) (moved_row s.act.stage) (λ x. refl)
              (All-selected Kept s.row (λ c. c.id == s.row.id) (moved_row s.act.stage) db.bookings
                Kept-refl (λ x h. (eq_iff x.id s.row.id).0 h)
                (Kept-moved s.act.stage s.row s.at_stage) (only_row db _ v s.found))
              (ap (λ d. d.bookings) s.moved))
            (elim (zero_deposit-cases _ s.row.id now s.between db' s.completed) [
              | inl same ↦ Keeps-same s.between db' (ap (λ d. d.bookings) same)
              | inr (n, c) ↦ complete-Keeps s.row.id now zero_deposit_return s.between db' n c
            ])
    ]
