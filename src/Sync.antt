-- ===== src/Sync.antt =====
-- The locks of src/utils.
pub mod SpinLock
pub mod RwLock
