-- ===== src/Booking/NextAction.antt =====
-- backend/src/booking/booking-next-action.ts: what a participant is asked to do next. The titles
-- and descriptions of the actions are left out.
use sosedi_app.Domain.Status.{BookingStatus}

pub data ActorRole : Type 0 where
  borrower lender : ActorRole

pub data ActionCode : Type 0 where
  wait_lender review_request prepare_handover use_item wait_return review_return : ActionCode
  leave_review no_action : ActionCode

-- `bookingNextAction`
unfoldable pub booking_next_action : BookingStatus → ActorRole → ActionCode
booking_next_action BookingStatus.pending lender = review_request
booking_next_action BookingStatus.pending borrower = wait_lender
booking_next_action BookingStatus.confirmed role = prepare_handover
booking_next_action BookingStatus.active lender = wait_return
booking_next_action BookingStatus.active borrower = use_item
booking_next_action BookingStatus.returned role = review_return
booking_next_action BookingStatus.completed role = leave_review
booking_next_action BookingStatus.cancelled role = no_action
