-- ===== src/Tests.antt =====
-- Runs of the model at concrete inputs.
pub mod World
pub mod Host
pub mod PsramVec
pub mod Lora
pub mod PingBot
pub mod Hal
pub mod Storage
pub mod Mesh
pub mod Companion
pub mod Boot
pub mod Builder
pub mod Crypto
pub mod Locks
