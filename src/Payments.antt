-- ===== src/Payments.antt =====
-- backend/src/payments: prices, the deposit and its operations, disputes, the fake provider.
pub mod Policy
pub mod Price
pub mod DepositState
pub mod Operations
pub mod Provider
pub mod Completion
pub mod Checkout
pub mod Retry
pub mod Processor
pub mod Deadline
pub mod Dispute
pub mod Calm
pub mod Balance
