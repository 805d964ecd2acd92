-- ===== src/Payments/Calm/Paying.antt =====
-- `DepositService.checkout` of backend/src/payments/deposit.service.ts, and the tables that it leaves.
use sosedi_app.Prelude.{
  Option, Option-cases, String, ap, inl, inr, none, refl, some, subst, ℕ, ◌∙◌, ◌≡◌, ◌⊎◌,
}
use sosedi_app.Booking.Terms.{Snapshot}
use sosedi_app.Domain.{Booking, BookingDeposit, Db, deposit_of, payment_of}
use sosedi_app.Domain.Failure.{>>=-eq-ok, Result, err, ok, ok-injective, ok-pair}
use sosedi_app.Domain.Status.{DepositStatus}
use sosedi_app.Payments.Calm.{Calm, Calm-refl}
use sosedi_app.Payments.Checkout.{
  CheckoutContext, after_answer, after_hold, after_match, after_payment, checkout, checkout_terms,
  deposit_matches, hold_and_write, hold_id_of, hold_operation, hold_request, pay, record_payment,
  replay_payment, write_checkout,
}
use sosedi_app.Payments.Operations.{add_operation, set_deposit}
use sosedi_app.Payments.Provider.{
  Provider, ProviderResult, execute, provider_declined, provider_succeeded, provider_timeout,
}

-- The bookings are as they were, and at most one deposit becomes held.
pub record Pays (db db' : Db) : Type 0 where
  pub calm : Calm db db'
  pub deposits :
      (db'.deposits ≡ db.deposits)
      ⊎ ((k : String) × (db'.deposits ≡ set_deposit k DepositStatus.held db.deposits))

Pays-refl : (db : Db) → Pays db db
Pays-refl db = record { calm = Calm-refl db; deposits = inl refl }

write_checkout-Pays :
    (c : CheckoutContext) (amount : ℕ) (payment_id : String) (o : Option (BookingDeposit × String))
    (deposit_amount : ℕ) (db db' : Db)
    → write_checkout c amount payment_id o deposit_amount db ≡ ok db'
    → Pays db db'
unfolding write_checkout
write_checkout-Pays c amount payment_id none deposit_amount db db' e =
    subst (Pays db) (ok-injective e)
      (record { calm = record { rows = refl; periods = refl }; deposits = inl refl })
write_checkout-Pays c amount payment_id (some (d, hold_id)) deposit_amount db db' e =
    let (operations, _, e1) =
      >>=-eq-ok (add_operation (hold_operation c d deposit_amount hold_id) db.operations) _ e in
    subst (Pays db) (ok-injective e1)
      (record { calm = record { rows = refl; periods = refl }; deposits = inr (d.id, refl) })

after_hold-Pays :
    (c : CheckoutContext) (s : Snapshot) (d : BookingDeposit) (payment_id : String)
    (provider : Provider) (db db' : Db) (r : ProviderResult)
    (x : Result (Provider × ProviderResult))
    → (after_hold c s d payment_id provider db x).1 ≡ ok (db', r)
    → Pays db db'
after_hold-Pays c s d payment_id provider db db' r (err x) h = cc
after_hold-Pays c s d payment_id provider db db' r (ok (provider', held)) h =
    let (hold_id, _, h1) = >>=-eq-ok (hold_id_of held) _ h in
    let (db1, w, h2) =
      >>=-eq-ok
        (write_checkout c s.money_minor.total payment_id (some (d, hold_id)) s.money_minor.deposit
          db)
        (λ x. ok (x, provider_succeeded payment_id)) h1 in
    write_checkout-Pays c s.money_minor.total payment_id (some (d, hold_id)) s.money_minor.deposit
      db db' (w ∙ ap ok (ok-pair h2).0)

module _ (digest : String → String) where
  hold_and_write-Pays :
      (c : CheckoutContext) (s : Snapshot) (o : Option BookingDeposit) (payment_id : String)
      (provider : Provider) (db db' : Db) (r : ProviderResult)
      → (hold_and_write digest c s o payment_id provider db).1 ≡ ok (db', r)
      → Pays db db'
  unfolding hold_and_write
  hold_and_write-Pays c s none payment_id provider db db' r e =
      let (db1, w, e1) =
        >>=-eq-ok (write_checkout c s.money_minor.total payment_id none 0 db)
          (λ x. ok (x, provider_succeeded payment_id)) e in
      write_checkout-Pays c s.money_minor.total payment_id none 0 db db' (w ∙ ap ok (ok-pair e1).0)
  hold_and_write-Pays c s (some d) payment_id provider db db' r e =
      after_hold-Pays c s d payment_id provider db db' r
        (execute digest (hold_request d s.money_minor.deposit) provider) e

  after_match-Pays :
      (c : CheckoutContext) (s : Snapshot) (payment_id : String) (provider : Provider) (db db' : Db)
      (r : ProviderResult) (m : Result (Unit {0}))
      → (after_match digest c s payment_id provider db m).1 ≡ ok (db', r)
      → Pays db db'
  after_match-Pays c s payment_id provider db db' r (err x) h = cc
  after_match-Pays c s payment_id provider db db' r (ok _) h =
      hold_and_write-Pays c s (deposit_of c.booking_id db) payment_id provider db db' r h

  record_payment-Pays :
      (c : CheckoutContext) (s : Snapshot) (payment_id : String) (provider : Provider) (db db' : Db)
      (r : ProviderResult)
      → (record_payment digest c s payment_id provider db).1 ≡ ok (db', r)
      → Pays db db'
  unfolding record_payment
  record_payment-Pays c s payment_id provider db db' r e =
      elim (Option-cases (payment_of c.booking_id db)) [
        | inr (p, found) ↦
            let (_, _, e1) =
              >>=-eq-ok (replay_payment c p (deposit_of c.booking_id db) s.money_minor.total)
                (λ x. ok (db, x)) (rw (record_payment, found) at e) in
            subst (Pays db) (ok-pair e1).0 (Pays-refl db)
        | inl missing ↦
            after_match-Pays c s payment_id provider db db' r
              (deposit_matches s (deposit_of c.booking_id db)) (rw (record_payment, missing) at e)
      ]

  after_answer-Pays :
      (c : CheckoutContext) (s : Snapshot) (provider : Provider) (db db' : Db)
      (r a : ProviderResult)
      → (after_answer digest c s provider db a).1 ≡ ok (db', r)
      → Pays db db'
  after_answer-Pays c s provider db db' r (provider_succeeded payment_id) h =
      record_payment-Pays c s payment_id provider db db' r h
  after_answer-Pays c s provider db db' r (provider_declined code) h =
      subst (Pays db) (ok-pair h).0 (Pays-refl db)
  after_answer-Pays c s provider db db' r provider_timeout h =
      subst (Pays db) (ok-pair h).0 (Pays-refl db)

  after_payment-Pays :
      (c : CheckoutContext) (s : Snapshot) (provider : Provider) (db db' : Db) (r : ProviderResult)
      (x : Result (Provider × ProviderResult))
      → (after_payment digest c s provider db x).1 ≡ ok (db', r)
      → Pays db db'
  after_payment-Pays c s provider db db' r (err x) h = cc
  after_payment-Pays c s provider db db' r (ok (provider', a)) h =
      after_answer-Pays c s provider' db db' r a h

  pay-Pays :
      (c : CheckoutContext) (provider : Provider) (db db' : Db) (r : ProviderResult)
      (t : Result (Booking × Snapshot))
      → (pay digest c provider db t).1 ≡ ok (db', r)
      → Pays db db'
  pay-Pays c provider db db' r (err x) h = cc
  pay-Pays c provider db db' r (ok (b, s)) h = after_payment-Pays c s provider db db' r _ h

  pub checkout-Pays :
      (c : CheckoutContext) (provider : Provider) (db db' : Db) (r : ProviderResult)
      → (checkout digest c provider db).1 ≡ ok (db', r)
      → Pays db db'
  unfolding checkout
  checkout-Pays c provider db db' r e = pay-Pays c provider db db' r (checkout_terms c db) e
