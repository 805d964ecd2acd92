-- ===== src/Domain/Laws.antt =====
-- What a successful insertion of an event has written.
use sosedi_app.Prelude.{Bool-cases, any, arith, false, inl, inr, ◌∷◌, ◌≡◌}
use sosedi_app.Domain.{Db, OutboxEvent, create_event, same_key}
use sosedi_app.Domain.Failure.{ok}

pub create_event-eq-ok :
    (e : OutboxEvent) (db db' : Db)
    → create_event e db ≡ ok db'
    → (any (same_key e) db.outbox ≡ false) × (db' ≡ record db { outbox = e ∷ db.outbox })
unfolding create_event
create_event-eq-ok e db db' h = elim (Bool-cases (any (same_key e) db.outbox)) [
  | inl t ↦ ground arith
  | inr t ↦ (t, ground arith)
]
