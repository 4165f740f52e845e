-- ===== src/Storage.antt =====
-- The secure ledger of internal/secureledger/ledger.go: its event file, its blobs and its lock.
pub mod Bytes
pub mod Lines
pub mod Walk
pub mod Repair
pub mod Append
pub mod Locking
pub mod Blobs
