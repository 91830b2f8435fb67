-- ===== src/Redemption.antt =====
-- Redemptions: an asset on an internal chain is destroyed, and paid out on an external chain.
pub mod Helper
pub mod Withdrawal
pub mod Retry
pub mod Records
pub mod Manager
pub mod Order
pub mod Payouts
pub mod Orders
pub mod Checks
