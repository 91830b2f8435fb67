-- ===== src/Recharge/Order.antt =====
-- The life of a recharge order: packages/server/src/module/recharge/order.
pub mod Obj
pub mod ExternalWait
pub mod InternalWait
pub mod Final
pub mod Events
pub mod Diagram
pub mod Transitions
pub mod Payments
pub mod Retries
pub mod Callbacks
