-- ===== src/User.antt =====
-- The programs of xv6/user that are modelled.
pub mod Grep
pub mod Text
mod Tests
