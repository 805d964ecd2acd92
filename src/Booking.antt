-- ===== src/Booking.antt =====
-- backend/src/booking: the life of a booking.
pub mod Terms
pub mod Period
pub mod NextAction
pub mod Deal
pub mod Conflicts
pub mod Create
pub mod Confirm
pub mod Cancel
pub mod Expiry
pub mod Availability
pub mod Act
pub mod Exclusive
pub mod Change
