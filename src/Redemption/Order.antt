-- ===== src/Redemption/Order.antt =====
-- The life of a redemption order: packages/server/src/module/redemption/order.
pub mod Obj
pub mod InternalWait
pub mod ExternalWait
pub mod Final
pub mod Events
pub mod Diagram
pub mod Transitions
pub mod Payments
pub mod Callbacks
