-- ===== src/Hal.antt =====
-- The hardware abstraction crate, firmware/chiyo-hal/src: the flash partition, the key-value
-- filesystem over it, and its errors.
pub mod Partition
pub mod Keys
pub mod Directory
pub mod Outcome
pub mod MapStore
pub mod Filesystem
