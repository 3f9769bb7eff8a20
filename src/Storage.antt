-- ===== src/Storage.antt =====
-- backend/lexmind/storage: the URIs of stored objects, and the façade over a provider.
pub mod Paths
pub mod Uri
pub mod Manager
pub mod Filesystem
