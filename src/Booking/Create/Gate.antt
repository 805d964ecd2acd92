-- ===== src/Booking/Create/Gate.antt =====
-- The legal gate of `BookingService.create`, backend/src/booking/booking.service.ts: the approved
-- versions of the documents, and their acceptance by the borrower.
use sosedi_app.Prelude.{
  Bool, List, Option, String, [], eqb, false, if◌then◌else◌, leb, length, none, not, some, true, ℕ,
  ◌&&◌, ◌+◌, ◌==◌, ◌||◌, ◌∷◌,
}
use sosedi_app.Domain.Failure.{
  Result, legal_gate_closed, ok, or_throw, terms_acceptance_required, throw_if, ◌>>=◌,
}
use sosedi_app.Payments.Policy.{MarketplacePolicy}
use sosedi_app.Text.{codes, trim}

pub record CreateBookingDto : Type 0 where
  pub item_id : String
  pub start_date : String
  pub end_date : String
  pub offer_accepted : Bool
  pub rental_rules_accepted : Bool
  pub offer_version : String
  pub cancellation_policy_version : String

-- The two settings that name the documents.
pub record LegalConfig : Type 0 where
  pub marketplace_offer_version : Option String
  pub marketplace_cancellation_policy_version : Option String

pub record LegalTerms : Type 0 where
  pub offer_version : String
  pub cancellation_policy_version : String

-- What `create` is called with: the caller, the request, the settings, the clock, and the values
-- that `randomUUID` and the hash of the request give.
pub record CreateContext : Type 0 where
  pub borrower_id : String
  pub dto : CreateBookingDto
  pub request_id : String
  pub request_hash : String
  pub legal : LegalConfig
  pub policy : MarketplacePolicy
  pub now : ℕ
  pub now_text : String
  pub today : String
  pub booking_id : String
  pub deposit_id : String

abbrev lower : ℕ → ℕ
lower c = if leb b'A' c && leb c b'Z' then c + 32 else c

abbrev is_letter_or_digit : ℕ → Bool
is_letter_or_digit c = (leb b'a' (lower c) && leb (lower c) b'z') || (leb b'0' c && leb c b'9')

abbrev is_version_char : ℕ → Bool
is_version_char c = is_letter_or_digit c || eqb c b'.' || eqb c b'_' || eqb c b'-'

abbrev every : (ℕ → Bool) → List ℕ → Bool
every p [] = true
every p (c ∷ cs) = p c && every p cs

-- `/^[a-z0-9][a-z0-9._-]{0,63}$/i`
is_version : List ℕ → Bool
is_version [] = false
is_version (c ∷ cs) = is_letter_or_digit c && (every is_version_char cs && leb (length cs) 63)

-- `toLowerCase().includes('draft')`
starts_with_draft : List ℕ → Bool
starts_with_draft (a ∷ b ∷ c ∷ d ∷ e ∷ _) =
    eqb (lower a) b'd'
    && eqb (lower b) b'r'
    && eqb (lower c) b'a'
    && eqb (lower d) b'f'
    && eqb (lower e) b't'
starts_with_draft _ = false

pub includes_draft : List ℕ → Bool
unfolding starts_with_draft
includes_draft [] = false
includes_draft (c ∷ cs) = starts_with_draft (c ∷ cs) || includes_draft cs

-- `isApprovedDocumentVersion`
unfoldable pub is_approved_version : String → Bool
unfolding is_version includes_draft
is_approved_version version = is_version (codes version) && not (includes_draft (codes version))

-- A setting, trimmed, if it names an approved document.
unfoldable pub approved_version : Option String → Option String
unfolding is_approved_version trim
approved_version none = none
approved_version (some s) =
    let version = trim s in if is_approved_version version then some version else none

-- `requireApprovedMarketplaceTerms`
unfoldable pub require_approved_terms : LegalConfig → Result LegalTerms
unfolding approved_version
require_approved_terms config = do
  offer ← or_throw (approved_version config.marketplace_offer_version) legal_gate_closed
  policy ←
      or_throw (approved_version config.marketplace_cancellation_policy_version) legal_gate_closed
  ok (record { offer_version = offer; cancellation_policy_version = policy })

-- `requireMarketplaceTermsAcceptance`
unfoldable pub require_acceptance : CreateBookingDto → LegalTerms → Result (Unit {0})
require_acceptance dto terms =
    throw_if
      (not dto.offer_accepted
        || not dto.rental_rules_accepted
        || not (dto.offer_version == terms.offer_version)
        || not (dto.cancellation_policy_version == terms.cancellation_policy_version))
      terms_acceptance_required
