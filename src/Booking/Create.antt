-- ===== src/Booking/Create.antt =====
-- `BookingService.create` of backend/src/booking/booking.service.ts: a request for an item.
pub mod Gate
pub mod Quote
pub mod Laws
pub mod Limits
pub mod Repeat
unfoldable pub use Gate.*
unfoldable pub use Quote.*
use sosedi_app.Prelude.{
  Bool, List, Option, String, any, count_where, false, find_first, if◌then◌else◌, leb, ltb, none,
  not, some, ℕ, ◌&&◌, ◌+◌, ◌==◌, ◌||◌, ◌∷◌,
}
use sosedi_app.Prelude.Int.{pos}
use sosedi_app.Booking.Conflicts.{calendar_conflicts, competes, log, reservation_conflicts}
use sosedi_app.Booking.Period.{BookingPeriod, parse_booking_period}
use sosedi_app.Booking.Terms.Store.{snapshot_json}
use sosedi_app.Domain.{
  Booking, BookingDeposit, Db, Item, Transition, UserBlock, booking_event, create_event, is_after,
}
use sosedi_app.Domain.Failure.{
  Result, booking_conflict, calendar_conflict, err, idempotency_key_reused,
  item_deposit_not_supported, item_unavailable, ok, or_throw, own_item, throw_if,
  too_many_competing, too_many_pending, unique_violation, user_interaction_blocked, ◌>>=◌, ◌>>◌,
}
use sosedi_app.Domain.Status.{BookingStatus, DepositStatus, booking_is, item_approved}
use sosedi_app.Payments.Policy.{assert_deposit_allowed, is_pay_on_handover}
use sosedi_app.Prelude.{
  Bool, List, Option, String, any, count_where, false, find_first, if◌then◌else◌, leb, ltb, none,
  not, some, ℕ, ◌&&◌, ◌+◌, ◌==◌, ◌||◌, ◌∷◌,
}
use sosedi_app.Prelude.Int.{pos}
use sosedi_app.Booking.Conflicts.{calendar_conflicts, competes, log, reservation_conflicts}
use Gate.{CreateContext, require_acceptance, require_approved_terms}
use Quote.{Offer, deposit_of_item, make_offer}
use sosedi_app.Booking.Period.{BookingPeriod, parse_booking_period}
use sosedi_app.Booking.Terms.Store.{snapshot_json}
use sosedi_app.Domain.{
  Booking, BookingDeposit, Db, Item, Transition, UserBlock, booking_event, create_event, is_after,
}
use sosedi_app.Domain.Failure.{
  Result, booking_conflict, calendar_conflict, err, idempotency_key_reused,
  item_deposit_not_supported, item_unavailable, ok, or_throw, own_item, throw_if,
  too_many_competing, too_many_pending, unique_violation, user_interaction_blocked, ◌>>=◌, ◌>>◌,
}
use sosedi_app.Domain.Status.{BookingStatus, DepositStatus, booking_is, item_approved}
use sosedi_app.Payments.Policy.{assert_deposit_allowed, is_pay_on_handover}

-- The part of `create` that answers a repeated request with the booking that it made.
abbrev pub find_repeated : String → String → Db → Option Booking
find_repeated borrower request db =
    find_first
      (λ b.
        b.borrower_id == borrower
        && elim b.client_request_id [ none ↦ false | some r ↦ r == request ])
      db.bookings

abbrev pub has_hash : String → Booking → Bool
has_hash hash b = elim b.client_request_hash [ none ↦ false | some h ↦ h == hash ]

abbrev pub booking_max_active_pending : ℕ
booking_max_active_pending = 5

abbrev pub booking_max_competing_pending : ℕ
booking_max_competing_pending = 20

abbrev pub booking_pending_ttl_ms : ℕ
booking_pending_ttl_ms = 43200000

-- `activePendingCount`
abbrev pub active_pending : String → ℕ → Booking → Bool
active_pending borrower now b =
    b.borrower_id == borrower
    && (booking_is BookingStatus.pending b.status && is_after b.expires_at now)

-- The item on offer: approved, of an owner who is neither blocked nor deleted.
abbrev pub offered_item : String → Db → Option Item
offered_item k db =
    find_first
      (λ i. i.id == k && (item_approved i.status && not (i.owner_blocked || i.owner_deleted)))
      db.items

abbrev pub blocks_interaction : String → String → UserBlock → Bool
blocks_interaction borrower owner u =
    (u.blocker_id == borrower && u.blocked_id == owner)
    || (u.blocker_id == owner && u.blocked_id == borrower)

-- The checks that `create` makes of the item and its calendar, in order.
unfoldable pub check_item : CreateContext → Item → BookingPeriod → Db → Result (Unit {0})
check_item c item period db = do
  throw_if (item.owner_id == c.borrower_id) own_item
  throw_if (is_pay_on_handover c.policy.payment_scenario && ltb 0 (deposit_of_item item))
      item_deposit_not_supported
  assert_deposit_allowed c.policy (pos (deposit_of_item item))
  throw_if (any (blocks_interaction c.borrower_id item.owner_id) db.user_blocks)
      user_interaction_blocked
  throw_if (calendar_conflicts item.id period.start_date period.end_date db) calendar_conflict
  throw_if (reservation_conflicts item.id period.start_date period.end_date db) booking_conflict
  throw_if
      (leb booking_max_competing_pending
        (count_where (competes item.id period.start_date period.end_date c.now) db.bookings))
      too_many_competing

-- The row of the new booking.
unfoldable pub new_booking : CreateContext → Item → BookingPeriod → Offer → Booking
new_booking c item period offer = record {
  id = c.booking_id;
  item_id = item.id;
  borrower_id = c.borrower_id;
  lender_id = item.owner_id;
  client_request_id = some c.request_id;
  client_request_hash = some c.request_hash;
  start_date = period.start_date;
  end_date = period.end_date;
  total_amount = offer.price.borrower_total_minor;
  status = BookingStatus.pending;
  expires_at = some (c.now + booking_pending_ttl_ms);
  cancellation_reason = none;
  terms_snapshot = some (snapshot_json offer.snapshot);
}

-- `bookingDeposit.create`, if the deal has a deposit
unfoldable pub new_deposits :
    CreateContext → Offer → List BookingDeposit → Result (List BookingDeposit)
new_deposits c offer deposits = elim offer.snapshot.deposit_terms [
  | none ↦ ok deposits
  | some terms ↦
      if any (λ d. d.id == c.deposit_id || d.booking_id == c.booking_id) deposits
      then err unique_violation
      else ok (
          record {
            id = c.deposit_id;
            booking_id = c.booking_id;
            amount = offer.price.deposit_minor;
            policy_version = terms.policy_version;
            dispute_window_seconds = terms.dispute_window_seconds;
            status = DepositStatus.pending;
            dispute_window_ends_at = none;
            refunded_amount = 0;
            released_to_lender_amount = 0;
          }
          ∷ deposits)
]

abbrev pub created_transition : CreateContext → Transition
created_transition c = record {
  booking_id = c.booking_id;
  actor_id = some c.borrower_id;
  actor_type = "BORROWER";
  command = "CREATE";
  old_status = none;
  new_status = BookingStatus.pending;
  reason = none;
}

-- The rows of the booking, the deposit and the history.
abbrev pub created_tables :
    CreateContext → Item → BookingPeriod → Offer → List BookingDeposit → Db → Db
created_tables c item period offer deposits db =
    log (created_transition c) "Заявка отправлена. Владелец ответит в течение 12 часов."
      (record db { bookings = new_booking c item period offer ∷ db.bookings; deposits = deposits })

-- The writes of `create`.
unfoldable pub insert_booking :
    CreateContext → Item → BookingPeriod → Offer → Db → Result (Db × Booking)
unfolding new_booking new_deposits create_event
insert_booking c item period offer db = do
  throw_if (any (λ b. b.id == c.booking_id) db.bookings) unique_violation
  deposits ← new_deposits c offer db.deposits
  db' ←
      create_event (booking_event c.booking_id "BOOKING_CREATED")
        (created_tables c item period offer deposits db)
  ok (db', new_booking c item period offer)

-- A request that is not a repeated one.
unfoldable pub create_new : CreateContext → BookingPeriod → Db → Result (Db × Booking)
unfolding check_item make_offer insert_booking
create_new c period db = do
  throw_if
      (leb booking_max_active_pending
        (count_where (active_pending c.borrower_id c.now) db.bookings))
      too_many_pending
  item ← or_throw (offered_item c.dto.item_id db) item_unavailable
  check_item c item period db
  offer ← make_offer c item period
  insert_booking c item period offer db

-- A repeated request is answered by its booking.
abbrev pub answer : CreateContext → BookingPeriod → Db → Option Booking → Result (Db × Booking)
answer c period db none = create_new c period db
answer c period db (some b) =
    if has_hash c.request_hash b then ok (db, b) else err idempotency_key_reused

-- `BookingService.create`
unfoldable pub create : CreateContext → Db → Result (Db × Booking)
unfolding require_approved_terms require_acceptance create_new parse_booking_period
create c db = do
  terms ← require_approved_terms c.legal
  require_acceptance c.dto terms
  period ← parse_booking_period c.dto.start_date c.dto.end_date c.today
  answer c period db (find_repeated c.borrower_id c.request_id db)
