-- ===== src/Admin.antt =====
-- packages/server/src/module/admin and the decorator that reads an administrator's token.
pub mod Authorization
pub mod Users
pub mod Orders
pub mod System
