-- ===== src/Tests.antt =====
-- Runs at concrete inputs.
pub mod Setup
pub mod Sorting
pub mod Crypto
pub mod Access
pub mod Witnesses
pub mod Service
pub mod Started
pub mod Requests
pub mod Pages
pub mod Served
