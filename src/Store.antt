-- ===== src/Store.antt =====
-- server/store and server/store/filestore.
pub mod Fetch
pub mod Index
pub mod Codec
pub mod Partition
pub mod MessageId
pub mod MessageStore
pub mod Dummy
