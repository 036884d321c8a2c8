-- ===== src/Backups.antt =====
-- Backups: their encryption, retention and restoration, of internal/gateway/operations.go, with the
-- table `backups`.
pub mod Encryption
pub mod Decryption
pub mod Format
pub mod Frames
pub mod Returns
pub mod Refinement
pub mod Sealing
pub mod Roundtrip
pub mod Retention
pub mod Operations
pub mod Restore
pub mod Found
pub mod Restored
pub mod Failed
mod Tests
