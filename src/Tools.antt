-- ===== src/Tools.antt =====
-- The package tools: retries, and helpers on lists.
pub mod Retry
pub mod Lists
pub mod Addresses
pub mod Numbers
mod Tests
