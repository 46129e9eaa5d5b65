-- ===== src/Companion.antt =====
-- The companion's front end, firmware/companion/src.
pub mod Reply
pub mod Session
pub mod Build
pub mod Handler
pub mod Protocol
pub mod Layer
pub mod Tcp
