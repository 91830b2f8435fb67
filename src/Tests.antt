-- ===== src/Tests.antt =====
-- The theorems applied to concrete hosts and orders.
mod Data
mod Recharges
mod Redemptions
mod Services
mod Administration
mod Configuration
mod Processes
