-- ===== src/Booking/Act/Drawing.antt =====
-- `BookingActService.create` of backend/src/booking/booking-act.service.ts, and what it leaves.
use sosedi_app.Prelude.{
  Option-cases, String, any, ap, count_where, eqb, find_first, inl, inr, not, sym, ℕ, ◌==◌, ◌≡◌,
}
use sosedi_app.Booking.Act.{
  CreateActDto, create_act, create_act_row, ensure_readiness, is_replay, is_rival_act, is_usable,
  stage_author, stage_status,
}
use sosedi_app.Domain.{BookingAct, Db, participant_booking}
use sosedi_app.Domain.Failure.{
  >>=-eq-ok, Result, act_exists, booking_not_found, intent_used, invalid_booking_transition, ok,
  ok-pair, or_throw-eq-ok, throw_if-eq-ok, wrong_stage_actor,
}
use sosedi_app.Domain.Status.{booking_is}
use sosedi_app.Payments.Calm.{Quiet, Quiet-same}

create_act_row-Quiet :
    (actor booking : String) (dto : CreateActDto) (act_id : String) (now : ℕ) (db db' : Db)
    (r : BookingAct)
    → create_act_row actor booking dto act_id now db ≡ ok (db', r)
    → Quiet db db'
unfolding create_act_row
create_act_row-Quiet actor booking dto act_id now db db' r e =
    let (b, _, e1) = or_throw-eq-ok (participant_booking actor booking db) booking_not_found _ e in
    let (_, e2) =
      throw_if-eq-ok (not (booking_is (stage_status dto.stage) b.status)) invalid_booking_transition
        _ e1 in
    let (_, e3) = throw_if-eq-ok (not (actor == stage_author dto.stage b)) wrong_stage_actor _ e2 in
    let (_, e4) =
      throw_if-eq-ok
        (not (eqb (count_where (is_usable dto.intent_id actor booking now) db.upload_intents) 1))
        intent_used _ e3 in
    let (_, e5) = throw_if-eq-ok (any (is_rival_act booking dto act_id) db.acts) act_exists _ e4 in
    let same = sym (ok-pair e5).0 in
    record {
      calm = record {
        rows = ap (λ x. x.bookings) same;
        periods = ap (λ x. x.unavailable_periods) same;
      };
      deposits = ap (λ x. x.deposits) same;
    }

pub create_act-Quiet :
    (actor booking : String) (dto : CreateActDto) (verified : Result (Unit {0})) (act_id : String)
    (now : ℕ) (db db' : Db) (r : BookingAct)
    → create_act actor booking dto verified act_id now db ≡ ok (db', r)
    → Quiet db db'
unfolding create_act
create_act-Quiet actor booking dto verified act_id now db db' r e =
    elim (Option-cases (find_first (is_replay actor booking dto) db.acts)) [
      | inr (a, found) ↦ Quiet-same db db' (sym (ok-pair (rw (create_act, found) at e)).0)
      | inl missing ↦
          let (_, _, e1) = >>=-eq-ok (ensure_readiness dto) _ (rw (create_act, missing) at e) in
          let (_, _, e2) =
            >>=-eq-ok verified (λ _. create_act_row actor booking dto act_id now db) e1 in
          create_act_row-Quiet actor booking dto act_id now db db' r e2
    ]
