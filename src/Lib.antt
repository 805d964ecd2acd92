-- ===== src/Lib.antt =====
-- The lending market "Sosedi": a verification of the backend's bookings and of the money of their
-- safe deals.
--
-- A borrower asks to rent an item for some days, its owner confirms the request, the two hand the
-- item over and back with acts that both confirm, and the deposit is refunded, or divided after a
-- dispute. The code is the NestJS application under backend/src; each service keeps its state in tables
-- of PostgreSQL and changes it in transactions.
--
-- Parts:
--   Prelude, Json, Text: lists, tables as lists of rows, numbers, JSON values and the texts that the
--     code parses. A row's update is `update_many`, a query `find_first`.
--   Domain: the tables (`Db`, after backend/prisma/schema.prisma), their statuses, and the results of
--     commands: an error of a service is a value, and a failed command changes nothing.
--   Workflow: the contract of the booking in backend/src/common/domain/workflow-contract.ts.
--   Booking: backend/src/booking. Terms (booking-terms.ts), Period (booking-period.ts), NextAction
--     (booking-next-action.ts), Create, Confirm and Cancel (create, confirm, cancelPending and
--     rejectExtension of booking.service.ts), Expiry (booking-expiry.service.ts), Act
--     (booking-act.service.ts), Availability (booking-availability.service.ts). Conflicts and Deal are
--     the queries that these share; Exclusive is the invariant of the calendar, and Change says how a
--     command may change a booking.
--   Payments: backend/src/payments. Policy (payment-policy.service.ts), Price (safe-deal-price.ts and
--     money-minor.ts), DepositState (deposit-state.ts), Completion, Checkout and Retry
--     (deposit.service.ts), Processor (deposit-operation.processor.ts), Deadline
--     (deposit-deadline.service.ts), Dispute (dispute.service.ts), Provider
--     (fake-safe-deal.provider.ts). Calm says what the payment commands leave alone, and Balance is
--     the invariant of the money.
--   Users: backend/src/users/users.service.ts, the blocks between users (blockUser, unblockUser), which
--     cancel requests.
--   Market: the commands that write bookings, deposits, operations, disputes or closed periods (Booking,
--     Payments and Users) as steps of one system, in any order.
--   Reviews: backend/src/reviews/reviews.service.ts, with the tables that it reads. Pages is the
--     public listing by cursors; IdOrder is what it takes from the order of identifiers.
--   Uploads: backend/src/upload. Keys (names and checks of objects), Request (requestUploadUrl), Verify
--     (the three verifications, and addEvidence of payments/dispute.service.ts), Photo and Avatar
--     (confirmItemPhotoUpload and confirmAvatarUpload) of upload.service.ts, and Cleanup
--     (upload-cleanup.service.ts). The storage and the image library are arguments.
--   Auth: backend/src/auth. Phone (auth.util.ts), Otp, Sessions and StepUp (auth.service.ts). The state
--     is Redis, an interface `Redis` of commands with their laws, and the table of users; tokens are signed and
--     read through the interface `Tokens`.
--   Tests: one deal as a concrete history, and examples of the other parts.
--
-- Conventions. An amount is a number of kopecks, which is what the columns hold and the code computes
-- with; a day is a number of days, an instant a number of milliseconds; the clock, new identifiers and
-- the answers of other services are inputs of a command. Numbers are unbounded; where the code bounds
-- them by the safe integers of JavaScript, the bound is written out. All loops run over lists, so no
-- fuel is needed; only the reader who follows the pages of a listing has fuel, of which one page more
-- than there are rows is enough. The steps of Market do not overlap, which is an assumption of
-- the model: a command is a transaction (a run of the expiry is several), taken as one step; the worker is two steps, between
-- which anything may happen. The code orders transactions by advisory locks on a borrower, an item or
-- a booking, and by conditional updates (confirm updates competitors whose bookings it has not locked,
-- and the worker claims an operation by such an update alone); that these suffice under the isolation
-- level READ COMMITTED is not shown. Of Reviews, Uploads and Auth, too, one operation runs at a time.
--
-- Not modelled: items, reports, support, admin, notifications, the messages of a booking
-- (backend/src/booking/booking-message.service.ts) and the processor of the outbox
-- (backend/src/booking/booking-outbox.processor.ts), and of users all but the blocks. They write items,
-- uploads, messages and the outbox, which are tables of Market, and other tables, but no booking,
-- deposit, operation, dispute, closed period or transition. The step other_services of Market sets
-- items, blocks, uploads, messages and the outbox to anything, which stands for them and for Uploads.
-- Of authentication the access tokens and the guards are left out, of uploads the links for downloads
-- and the worker that makes previews. Left out, too: the audit log and metrics; queries that only shape
-- a response; the hash of node:crypto, which is the parameter `digest`; the mobile application.
pub mod Prelude
pub mod Json
pub mod Text
pub mod Domain
pub mod Payments
pub mod Workflow
pub mod Booking
pub mod Market
pub mod Reviews
pub mod Uploads
pub mod Auth
pub mod Users
pub mod Tests
