-- ===== src/Recharge.antt =====
-- Recharges: an external-chain deposit is turned into an asset on an internal chain.
pub mod Helper
pub mod Deposit
pub mod Records
pub mod Retry
pub mod Manager
pub mod Order
pub mod Details
pub mod Orders
pub mod Checks
pub mod LateErrors
pub mod Pool
pub mod Shown
pub mod Assets
pub mod Reload
