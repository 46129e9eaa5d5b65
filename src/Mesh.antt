-- ===== src/Mesh.antt =====
-- The mesh node, firmware/chiyocore/src/simple_mesh/mod.rs and layer.rs.
pub mod Types
pub mod Monad
pub mod Layer
pub mod Send
pub mod Decode
pub mod Receive
pub mod Retry
