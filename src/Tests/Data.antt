-- ===== src/Tests/Data.antt =====
-- One deal: Anna rents the drill of Boris for three days, as a safe deal with a deposit; Vera wants
-- one of the days, too.
use sosedi_app.Prelude.{String, [], false, none, some, true, ℕ, ◌∷◌}
use sosedi_app.Prelude.Int.{pos}
use sosedi_app.Booking.Confirm.{confirm}
use sosedi_app.Booking.Create.{create}
use sosedi_app.Booking.Create.Gate.{CreateContext}
use sosedi_app.Booking.Create.Quote.{snapshot_of}
use sosedi_app.Booking.Period.{BookingPeriod}
use sosedi_app.Booking.Terms.{Snapshot}
use sosedi_app.Booking.Terms.Store.{snapshot_json}
use sosedi_app.Domain.{Booking, BookingAct, BookingDeposit, Db, FinancialDispute, Item}
use sosedi_app.Domain.Failure.{Result, commit, err, ok}
use sosedi_app.Domain.Status.{
  ActStage, BookingStatus, DepositStatus, DisputeStatus, ItemStatus, PaymentStatus,
}
use sosedi_app.Payments.Checkout.{CheckoutContext}
use sosedi_app.Payments.Dispute.{ResolveContext, resolve_dispute}
use sosedi_app.Payments.Policy.{MarketplacePolicy, PaymentScenario}
use sosedi_app.Payments.Price.{SafeDealPrice}
use sosedi_app.Payments.Processor.{apply_outcome, claim}
use sosedi_app.Payments.Provider.{FakeOutcome, provider_succeeded}

abbrev pub minute : ℕ
minute = 60000

abbrev pub policy : MarketplacePolicy
policy = record {
  payment_scenario = PaymentScenario.fake_safe_deal;
  deposit_policy = some (record {
    maximum_minor = 500000;
    policy_version = "deposit-1";
    dispute_window_seconds = 86400;
  });
}

abbrev pub drill : Item
drill = record {
  id = "drill";
  owner_id = "boris";
  title = "Drill";
  price_per_day = 50000;
  deposit_amount = some 200000;
  public_area = "Center";
  address = "Lenina 1";
  latitude = pos 5500000000;
  longitude = pos 3700000000;
  listing_rules_version = none;
  updated_at = "2025-06-01";
  status = ItemStatus.approved;
  owner_name = some "Boris";
  owner_blocked = false;
  owner_deleted = false;
}

abbrev pub empty_db : Db
empty_db = record {
  items = drill ∷ [];
  user_blocks = [];
  unavailable_periods = [];
  bookings = [];
  deposits = [];
  operations = [];
  disputes = [];
  payments = [];
  acts = [];
  upload_intents = [];
  transitions = [];
  outbox = [];
  messages = [];
}

abbrev pub request : String → String → String → String → CreateContext
request borrower first last k = record {
  borrower_id = borrower;
  dto = record {
    item_id = "drill";
    start_date = first;
    end_date = last;
    offer_accepted = true;
    rental_rules_accepted = true;
    offer_version = "offer-1";
    cancellation_policy_version = "cancel-1";
  };
  request_id = k;
  request_hash = k;
  legal = record {
    marketplace_offer_version = some "offer-1";
    marketplace_cancellation_policy_version = some "cancel-1";
  };
  policy = policy;
  now = minute;
  now_text = "2025-06-01T10:00:00.000Z";
  today = "2025-06-01";
  booking_id = k;
  deposit_id = k;
}

abbrev pub anna : CreateContext
anna = request "anna" "2025-06-10" "2025-06-12" "b1"

abbrev pub vera : CreateContext
vera = request "vera" "2025-06-12" "2025-06-13" "b2"

-- The answer of a command that is known to succeed.
abbrev pub answer_of {ℓ} : {A : Type ℓ} → A → Result (Db × A) → A
answer_of d (ok (db, a)) = a
answer_of d (err e) = d

abbrev pub first_of : Db → Booking → Booking
first_of db b = elim db.bookings [ [] ↦ b | ◌∷◌ x xs ↦ x ]

abbrev pub blank : Booking
blank = record {
  id = "";
  item_id = "";
  borrower_id = "";
  lender_id = "";
  client_request_id = none;
  client_request_hash = none;
  start_date = 0;
  end_date = 0;
  total_amount = 0;
  status = BookingStatus.pending;
  expires_at = none;
  cancellation_reason = none;
  terms_snapshot = none;
}

-- After Anna's request.
abbrev pub asked : Db
asked = commit empty_db (create anna empty_db)

abbrev pub annas_booking : Booking
annas_booking = answer_of blank (create anna empty_db)

-- After both requests.
abbrev pub requested : Db
requested = commit asked (create vera asked)

-- After Boris has confirmed Anna's request.
abbrev pub agreed : Db
agreed = commit requested (confirm "boris" "b1" minute requested)

-- A returned booking with a disputed deposit.
abbrev pub returned_booking : Booking
returned_booking = record blank {
  id = "b1";
  item_id = "drill";
  borrower_id = "anna";
  lender_id = "boris";
  status = BookingStatus.returned;
}

abbrev pub disputed_deposit : BookingDeposit
disputed_deposit = record {
  id = "d1";
  booking_id = "b1";
  amount = 200000;
  policy_version = "deposit-1";
  dispute_window_seconds = 86400;
  status = DepositStatus.disputed;
  dispute_window_ends_at = some 1000;
  refunded_amount = 0;
  released_to_lender_amount = 0;
}

abbrev pub open_case : FinancialDispute
open_case = record {
  id = "f1";
  booking_id = "b1";
  opened_by_id = "boris";
  resolved_by_id = none;
  status = DisputeStatus.open_dispute;
  decision_reason = none;
  refund_to_borrower_amount = 0;
  release_to_lender_amount = 0;
  opened_at = 500;
  resolved_at = none;
}

-- A return without a deposit.
abbrev pub free_return : Db
free_return = record empty_db { bookings = returned_booking ∷ [] }

abbrev pub disputed_db : Db
disputed_db = record empty_db {
  bookings = returned_booking ∷ [];
  deposits = disputed_deposit ∷ [];
  disputes = open_case ∷ [];
}

abbrev pub decision : ResolveContext
decision = record {
  policy = policy;
  admin_id = "admin";
  dispute_id = "f1";
  resolution = record {
    reason = "scratched";
    refund_to_borrower_minor = pos 120000;
    release_to_lender_minor = pos 80000;
  };
  idempotency_key = "key";
  now = minute;
  refund_id = "o1";
  release_id = "o2";
}

abbrev pub decided : Db
decided = commit disputed_db (resolve_dispute decision disputed_db)

abbrev pub decided_case : FinancialDispute
decided_case = answer_of open_case (resolve_dispute decision disputed_db)

-- The refund is claimed, and its outcome arrives.
abbrev pub claimed : Db
claimed = elim (claim "o1" minute decided) [ none ↦ decided | some (db, o) ↦ db ]

abbrev pub refunded : Db
refunded = elim (apply_outcome "o1" "b1" 1 120000 (provider_succeeded "p1") 70000 claimed) [
  | ok db ↦ db
  | err e ↦ claimed
]

-- Anna's payment; and a confirmed safe deal that is paid, with an act of its handover by Boris.
abbrev pub payment : CheckoutContext
payment = record {
  policy = policy;
  borrower_id = "anna";
  booking_id = "b1";
  outcome = FakeOutcome.success;
  idempotency_key = "pay-1";
  now = minute;
  operation_id = "h1";
}

abbrev pub same_text : String → String
same_text s = s

abbrev pub handover_act : BookingAct
handover_act = record {
  id = "a1";
  booking_id = "b1";
  author_id = "boris";
  stage = ActStage.handover;
  upload_intent_id = "u1";
  readiness = none;
  confirmed_by_id = none;
  confirmed_at = none;
}

abbrev pub annas_period : BookingPeriod
annas_period = record { start_date = 739777; end_date = 739779; days = 3 }

abbrev pub annas_price : SafeDealPrice
annas_price = record {
  rental_subtotal_minor = 150000;
  deposit_minor = 200000;
  borrower_total_minor = 350000;
  platform_fee_minor = 1500;
  owner_payout_minor = 148500;
}

abbrev pub annas_terms : Snapshot
annas_terms = snapshot_of anna drill annas_period annas_price

abbrev pub handed : Db
handed = record empty_db {
  bookings =
      record returned_booking {
        status = BookingStatus.confirmed;
        start_date = 739777;
        end_date = 739779;
        total_amount = 350000;
        terms_snapshot = some (snapshot_json annas_terms);
      }
      ∷ [];
  deposits =
      record disputed_deposit { status = DepositStatus.held; dispute_window_ends_at = none } ∷ [];
  payments =
      record {
        booking_id = "b1";
        user_id = "anna";
        amount = 350000;
        status = PaymentStatus.succeeded;
        yookassa_payment_id = some "p1";
      }
      ∷ [];
  acts = handover_act ∷ [];
}
