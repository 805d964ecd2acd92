-- ===== src/Payments/Balance.antt =====
-- The money of the deposits: what has been paid out of a deposit, and what has been promised.
pub mod Settling
use sosedi_app.Prelude.{
  All, All-trivial, All-update_many, Bool, Bool-cases, Pairwise, Pairwise-update_many, String,
  false, inl, inr, refl, subst, sym, update_many, update_row, ◌+◌, ◌==◌, ◌∙◌, ◌≡◌, ◌≢◌, ◌≤◌,
}
use sosedi_app.Domain.{BookingDeposit, Db}
use sosedi_app.Domain.Status.{DepositStatus, deposit_is}
use sosedi_app.Payments.Operations.{set_deposit}

-- No more than the deposit is paid out, and a resolved deposit is paid out in full.
pub record IsSound (d : BookingDeposit) : Type 0 where
  pub bounded : d.refunded_amount + d.released_to_lender_amount ≤ d.amount
  pub in_full :
      d.status ≡ DepositStatus.resolved → d.refunded_amount + d.released_to_lender_amount ≡ d.amount

pub record IsBalanced (db : Db) : Type 0 where
  pub apart : Pairwise (λ d e. d.id ≢ e.id) db.deposits
  pub sound : All IsSound db.deposits

-- A change of a deposit that moves no money, and resolves nothing.
pub record Harmless (d d' : BookingDeposit) : Type 0 where
  pub same_id : d'.id ≡ d.id
  pub same_amount : d'.amount ≡ d.amount
  pub same_refunded : d'.refunded_amount ≡ d.refunded_amount
  pub same_released : d'.released_to_lender_amount ≡ d.released_to_lender_amount
  pub unresolved : d'.status ≡ DepositStatus.resolved → d.status ≡ DepositStatus.resolved

IsSound-Harmless : (d d' : BookingDeposit) → Harmless d d' → IsSound d → IsSound d'
IsSound-Harmless d d' h s = record {
  bounded = rw (h.same_refunded, h.same_released, h.same_amount) s.bounded;
  in_full = λ r. rw (h.same_refunded, h.same_released, h.same_amount) (s.in_full (h.unresolved r));
}

pub update-IsBalanced :
    (db db' : Db) (p : BookingDeposit → Bool) (f : BookingDeposit → BookingDeposit)
    → ((d : BookingDeposit) → Harmless d (update_row p f d))
    → db'.deposits ≡ update_many p f db.deposits
    → IsBalanced db
    → IsBalanced db'
update-IsBalanced db db' p f harmless e v = record {
  apart = rw e (
      Pairwise-update_many (λ d e. d.id ≢ e.id) (λ d. Unit {0}) p f db.deposits
        (λ x y _ _ ne same. ne (sym (harmless x).same_id ∙ same ∙ (harmless y).same_id))
        (All-trivial db.deposits) v.apart);
  sound = rw e (
      All-update_many IsSound p f db.deposits (λ d s. IsSound-Harmless d _ (harmless d) s) v.sound);
}

pub same-IsBalanced : (db db' : Db) → db'.deposits ≡ db.deposits → IsBalanced db → IsBalanced db'
same-IsBalanced db db' e v = record { apart = rw e v.apart; sound = rw e v.sound }

-- A status that is not RESOLVED moves no money.
pub Harmless-status :
    (s : DepositStatus) (p : BookingDeposit → Bool) (d : BookingDeposit)
    → deposit_is DepositStatus.resolved s ≡ false
    → Harmless d (update_row p (λ x. record x { status = s }) d)
Harmless-status s p d h = elim (Bool-cases (p d)) [
  | inl t ↦ rw t (record {
    same_id = refl;
    same_amount = refl;
    same_refunded = refl;
    same_released = refl;
    unresolved = λ r. absurd (cc (subst (λ x. deposit_is DepositStatus.resolved x ≡ false) r h));
  })
  | inr t ↦ rw t (record {
    same_id = refl;
    same_amount = refl;
    same_refunded = refl;
    same_released = refl;
    unresolved = λ r. r;
  })
]

pub set_deposit-IsBalanced :
    (db db' : Db) (k : String) (s : DepositStatus)
    → deposit_is DepositStatus.resolved s ≡ false
    → db'.deposits ≡ set_deposit k s db.deposits
    → IsBalanced db
    → IsBalanced db'
set_deposit-IsBalanced db db' k s h e v =
    update-IsBalanced db db' (λ d. d.id == k) (λ d. record d { status = s })
      (λ d. Harmless-status s (λ x. x.id == k) d h) e v
