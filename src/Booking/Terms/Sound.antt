-- ===== src/Booking/Terms/Sound.antt =====
-- The checks of `readBookingTermsSnapshot` in backend/src/booking/booking-terms.ts.
use sosedi_app.Text.{◌>>=◌}
use sosedi_app.Booking.Terms.{◌>>◌}
use sosedi_app.Prelude.{
  num_eq, ◌==◌, Bool, Option, ap, arith, eq_iff, eqb, false, if◌then◌else◌, is_some, leb, ltb, none,
  not, refl, some, subst, true, ℕ, ◌&&◌, ◌*◌, ◌+◌, ◌||◌, ◌≡◌, ◌≤◌,
}
use sosedi_app.Booking.Terms.{
  guard, Acceptance, DepositTerms, MoneyMinor, Scenario, Snapshot, day_count, is_offline,
  json_record, max_safe_integer, non_empty_string, nullable_string, nullable_version,
}
use sosedi_app.Prelude.Int.{eqb_ℤ, pos}
use sosedi_app.Booking.Terms.Reader.{
  acceptance_by, TextTerms, read_text_terms, read_prices, snapshot_of, Binding, MoneyTerms,
  accepted_if_online, amounts_agree, choose_money, is_bound, is_rub, read_bound_terms,
  read_handover, read_money_terms, read_record, read_roubles, read_scenario, read_terms,
  roubles_agree, scenario_agrees, supplied_money, terms_of, valid_acceptance,
}
use sosedi_app.Json.{Fields, Json, arr, bool, get, null, num, obj, str}

-- Inversion of a chain of options.
module _ {A B : Type 0} where
  bind-eq-some :
      (o : Option A) (f : A → Option B) {b : B}
      → (o >>= f) ≡ some b
      → (a : A) × (o ≡ some a) × (f a ≡ some b)
  bind-eq-some none f h = cc
  bind-eq-some (some a) f h = (a, refl, h)

guard-eq-some :
    {B : Type 0} (c : Bool) (k : Option B) {b : B}
    → (guard c >> k) ≡ some b
    → (c ≡ true) × (k ≡ some b)
guard-eq-some false k h = cc
guard-eq-some true k h = (refl, h)

some-injective : {A : Type 0} {a b : A} → some a ≡ some b → a ≡ b
some-injective {a = a} h = ap (λ o. elim o [ none ↦ a | some x ↦ x ]) h

-- The amounts of the terms, said as equations.
pub record IsConsistent (s : Snapshot) : Type 0 where
  pub subtotal : s.money_minor.rental_subtotal ≡ s.money_minor.price_per_day * s.days
  pub divided :
      s.money_minor.owner_payout + s.money_minor.platform_fee ≡ s.money_minor.rental_subtotal
  pub total : s.money_minor.total ≡ s.money_minor.rental_subtotal + s.money_minor.deposit
  pub safe : s.money_minor.price_per_day * s.days ≤ max_safe_integer
  pub offline_free :
      is_offline s.payment_scenario ≡ true
      → (s.money_minor.deposit ≡ 0) × (s.money_minor.platform_fee ≡ 0) × (s.deposit_terms ≡ none)
  pub online_deposit :
      is_offline s.payment_scenario ≡ false → is_some s.deposit_terms ≡ ltb 0 s.money_minor.deposit
  pub online_accepted : is_offline s.payment_scenario ≡ false → is_some s.acceptance ≡ true

four :
    (p q r s : Bool)
    → (p && (q && (r && s))) ≡ true
    → (p ≡ true) × (q ≡ true) × (r ≡ true) × (s ≡ true)
four p q r s h = (ground arith, ground arith, ground arith, ground arith)

none_of : {A : Type 0} (o : Option A) → not (is_some o) ≡ true → o ≡ none
none_of none h = refl
none_of (some a) h = cc

offline_terms :
    (sc : Scenario) (m : MoneyMinor) (t : Option DepositTerms)
    → scenario_agrees sc m t ≡ true
    → is_offline sc ≡ true
    → (m.deposit ≡ 0) × (m.platform_fee ≡ 0) × (t ≡ none)
unfolding scenario_agrees
offline_terms Scenario.fake_safe_deal m t h o = cc
offline_terms Scenario.pay_on_handover m t h o =
    let (a, b, _, d) =
      four (eqb m.deposit 0) (eqb m.platform_fee 0) (eqb m.owner_payout m.rental_subtotal)
        (not (is_some t)) h in
    (num_eq _ _ a, num_eq _ _ b, none_of t d)

online_terms :
    (sc : Scenario) (m : MoneyMinor) (t : Option DepositTerms)
    → scenario_agrees sc m t ≡ true
    → is_offline sc ≡ false
    → is_some t ≡ ltb 0 m.deposit
unfolding scenario_agrees
online_terms Scenario.pay_on_handover m t h o = cc
online_terms Scenario.fake_safe_deal m t h o = same (ltb 0 m.deposit) (is_some t) h
  where
    same : (p q : Bool) → (if p then q else not q) ≡ true → q ≡ p
    same p q h = ground arith

consistent :
    (mt : MoneyTerms) (s : Snapshot)
    → amounts_agree mt.money mt.days ≡ true
    → scenario_agrees mt.scenario mt.money mt.terms ≡ true
    → accepted_if_online mt.scenario s.acceptance ≡ true
    → s.money_minor ≡ mt.money
    → s.days ≡ mt.days
    → s.payment_scenario ≡ mt.scenario
    → s.deposit_terms ≡ mt.terms
    → IsConsistent s
unfolding amounts_agree
consistent mt s amounts agrees accepted e_money e_days e_scenario e_terms =
    let (a, b, c, d) = four _ _ _ _ amounts in
    record {
      subtotal = rw (e_money, e_days) (num_eq _ _ b);
      divided = rw e_money (num_eq _ _ c);
      total = rw e_money (num_eq _ _ d);
      safe = rw (e_money, e_days) (at_most _ _ a);
      offline_free =
          rw (e_money, e_scenario, e_terms) (offline_terms mt.scenario mt.money mt.terms agrees);
      online_deposit =
          rw (e_money, e_scenario, e_terms) (online_terms mt.scenario mt.money mt.terms agrees);
      online_accepted =
          rw e_scenario
            (λ h. is_accepted (is_offline mt.scenario) (is_some s.acceptance) accepted h);
    }
  where
    at_most : (n m : ℕ) → leb n m ≡ true → n ≤ m
    at_most n m h = ground arith

    is_accepted : (p q : Bool) → (p || q) ≡ true → p ≡ false → q ≡ true
    is_accepted p q h g = ground arith

-- The checks that money terms have passed.
money_terms_agree :
    (value : Fields) (mt : MoneyTerms)
    → read_money_terms value ≡ some mt
    → (amounts_agree mt.money mt.days ≡ true)
      × (scenario_agrees mt.scenario mt.money mt.terms ≡ true)
unfolding read_money_terms
money_terms_agree value mt e =
    let (scenario, _, e1) = bind-eq-some (read_scenario (get "paymentScenario" value)) _ e in
    let (days, _, e2) = bind-eq-some (day_count (get "days" value)) _ e1 in
    let (roubles, _, e3) = bind-eq-some (read_roubles value) _ e2 in
    let (money, _, e4) =
      bind-eq-some
        (choose_money (supplied_money (json_record (get "moneyMinor" value))) scenario roubles) _
        e3 in
    let (terms, _, e5) = bind-eq-some (terms_of (get "depositTerms" value) scenario) _ e4 in
    let (h1, e6) = guard-eq-some (amounts_agree money days) _ e5 in
    let (_, e7) = guard-eq-some (roubles_agree roubles money) _ e6 in
    let (h3, e8) = guard-eq-some (scenario_agrees scenario money terms) _ e7 in
    subst
      (λ (x : MoneyTerms).
        (amounts_agree x.money x.days ≡ true) × (scenario_agrees x.scenario x.money x.terms ≡ true))
      (some-injective e8) (h1, h3)

text_terms_accepted :
    (value place : Fields) (scenario : Scenario) (texts : TextTerms)
    → read_text_terms value place scenario ≡ some texts
    → accepted_if_online scenario texts.acceptance ≡ true
unfolding read_text_terms
text_terms_accepted value place scenario texts e =
    let (title, _, e3) = bind-eq-some (non_empty_string (get "itemTitle" value)) _ e in
    let (lender, _, e4) = bind-eq-some (non_empty_string (get "lenderId" value)) _ e3 in
    let (name, _, e5) = bind-eq-some (nullable_string (get "lenderDisplayName" value)) _ e4 in
    let (currency, _, e6) = bind-eq-some (non_empty_string (get "currency" value)) _ e5 in
    let (_, e7) = guard-eq-some (is_rub currency) _ e6 in
    let (handover, _, e8) = bind-eq-some (read_handover place) _ e7 in
    let (listing, _, e9) = bind-eq-some (non_empty_string (get "listingVersion" value)) _ e8 in
    let (offer, _, e10) = bind-eq-some (nullable_version (get "offerVersion" value)) _ e9 in
    let (policy, _, e11) =
      bind-eq-some (nullable_version (get "cancellationPolicyVersion" value)) _ e10 in
    let (acceptance, _, e12) =
      bind-eq-some (valid_acceptance (json_record (get "acceptance" value)) offer policy) _ e11 in
    let (accepted, e13) = guard-eq-some (accepted_if_online scenario acceptance) _ e12 in
    subst (λ (x : TextTerms). accepted_if_online scenario x.acceptance ≡ true) (some-injective e13)
      accepted

read_record-IsConsistent :
    (value : Fields) (s : Snapshot) → read_record value ≡ some s → IsConsistent s
unfolding read_record
read_record-IsConsistent value s e =
    let (place, _, e1) = bind-eq-some (json_record (get "handover" value)) _ e in
    let (mt, m, e2) = bind-eq-some (read_money_terms value) _ e1 in
    let (texts, x, e3) = bind-eq-some (read_text_terms value place mt.scenario) _ e2 in
    let (prices, _, e4) =
      bind-eq-some (read_prices value) (λ p. some (snapshot_of value mt texts p)) e3 in
    let (amounts, agrees) = money_terms_agree value mt m in
    subst IsConsistent (some-injective e4) (
      consistent mt (snapshot_of value mt texts prices) amounts agrees
        (text_terms_accepted value place mt.scenario texts x) refl refl refl refl)

-- Terms that are read are consistent in money: the subtotal is the price of a day times the days,
-- and safe as an integer; the payout and the fee divide it; the total adds the deposit. A deal on
-- handover has no deposit, no fee and no deposit terms; a safe deal has deposit terms just when it
-- has a deposit, and was accepted.
pub read_terms-IsConsistent :
    (value : Option Json) (s : Snapshot) → read_terms value ≡ some s → IsConsistent s
unfolding read_terms
read_terms-IsConsistent none s e = cc
read_terms-IsConsistent (some (obj v)) s e = read_record-IsConsistent v s e
read_terms-IsConsistent (some null) s e = cc
read_terms-IsConsistent (some (bool b)) s e = cc
read_terms-IsConsistent (some (num n)) s e = cc
read_terms-IsConsistent (some (str t)) s e = cc
read_terms-IsConsistent (some (arr js)) s e = cc

-- What the terms of a row have in common with it.
pub record IsBoundTo (b : Binding) (s : Snapshot) : Type 0 where
  pub consistent_terms : IsConsistent s
  pub same_lender : s.lender_id ≡ b.lender_id
  pub same_total : s.money_minor.total ≡ b.total_amount
  pub same_borrower : (a : Acceptance) → s.acceptance ≡ some a → a.actor_id ≡ b.borrower_id

-- Terms that are read for a row of a booking are consistent, and name the row's lender and total;
-- and if they were accepted, then by the row's borrower.
pub read_bound_terms-IsBoundTo :
    (value : Option Json) (b : Binding) (s : Snapshot)
    → read_bound_terms value b ≡ some s
    → IsBoundTo b s
unfolding read_bound_terms is_bound
read_bound_terms-IsBoundTo value b s e =
    let (t, found, e1) = bind-eq-some (read_terms value) _ e in
    let (bound, e2) = guard-eq-some (is_bound b t) (some t) e1 in
    let same = some-injective e2 in
    let (h1, _, h3, h4) =
      four (s.lender_id == b.lender_id) (eqb_ℤ (pos s.days) b.days)
        (acceptance_by b.borrower_id s.acceptance) (eqb s.money_minor.total b.total_amount)
        (subst (λ x. is_bound b x ≡ true) same bound) in
    record {
      consistent_terms = subst IsConsistent same (read_terms-IsConsistent value t found);
      same_lender = (eq_iff s.lender_id b.lender_id).0 h1;
      same_total = num_eq _ _ h4;
      same_borrower = λ a h. (eq_iff a.actor_id b.borrower_id).0 (accepted s.acceptance a h h3);
    }
  where
    accepted :
        (o : Option Acceptance) (a : Acceptance)
        → o ≡ some a
        → acceptance_by b.borrower_id o ≡ true
        → a.actor_id == b.borrower_id ≡ true
    accepted o a h g = rw h at g
