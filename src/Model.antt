-- ===== src/Model.antt =====
-- The data of the program: chains, the business configuration, the two order tables, the users,
-- and the values that the wallet service takes and returns.
pub mod Admin
pub mod Chain
pub mod Wallet
pub mod Config
pub mod Recharge
pub mod Redemption
pub mod User
pub mod Value
