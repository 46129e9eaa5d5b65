-- ===== src/Storage.antt =====
-- The stores of a mesh node, firmware/chiyocore/src/simple_mesh/storage.
pub mod Search
pub mod HashLog
pub mod MeshStorage
pub mod Messages
pub mod Contacts
pub mod Channels
pub mod KeyCache
pub mod MessageLog
