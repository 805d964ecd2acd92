-- ===== src/Tests.antt =====
-- Concrete runs of the model.
pub mod Data
mod Booking
mod Payments
mod Market
mod Reviews
mod Uploads
mod Auth
mod Users
