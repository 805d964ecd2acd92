-- ===== src/Booking/Expiry/Laws.antt =====
-- A transaction of `expirePending` does nothing, or cancels a request that has run out.
use sosedi_app.Prelude.{
  Bool-cases, String, any, inl, inr, sym, true, ℕ, ◌&&◌, ◌==◌, ◌∙◌, ◌∷◌, ◌≡◌, ◌⊎◌,
}
use sosedi_app.Booking.Expiry.{expire_one, expired_tables, is_expired}
use sosedi_app.Domain.{Db, booking_event, create_event}
use sosedi_app.Domain.Failure.{>>=-eq-ok, ok, ok-pair}
use sosedi_app.Domain.Laws.{create_event-eq-ok}

pub record Expires (now : ℕ) (k : String) (db db' : Db) (n : ℕ) : Type 0 where
  pub found : any (λ b. b.id == k && is_expired now b) db.bookings ≡ true
  pub counted : n ≡ 1
  pub written : db' ≡ record (expired_tables now k db) {
    outbox = booking_event k "BOOKING_PENDING_TIMEOUT" ∷ db.outbox;
  }

pub expire-cases :
    (now : ℕ) (k : String) (db db' : Db) (n : ℕ)
    → expire_one now k db ≡ ok (db', n)
    → ((n ≡ 0) × (db' ≡ db)) ⊎ Expires now k db db' n
unfolding expire_one
expire-cases now k db db' n e =
    elim (Bool-cases (any (λ b. b.id == k && is_expired now b) db.bookings)) [
      | inr t ↦ let (a, b) = ok-pair (rw t at e) in inl (sym b, sym a)
      | inl t ↦
          let (db1, w, e1) =
            >>=-eq-ok
              (create_event (booking_event k "BOOKING_PENDING_TIMEOUT") (expired_tables now k db))
              (λ d. ok (d, 1)) (rw t at e) in
          let (new, same) =
            create_event-eq-ok (booking_event k "BOOKING_PENDING_TIMEOUT") (expired_tables now k db)
              db1 w in
          inr (record {
            found = t;
            counted = sym (ok-pair e1).1;
            written = sym (ok-pair e1).0 ∙ same;
          })
    ]
