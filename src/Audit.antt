-- ===== src/Audit.antt =====
-- src/audit: the log whose entries are chained by their hashes.
pub mod Json
pub mod Hash
pub mod Verifier
pub mod Framing
pub mod Evidence
pub mod Pages
pub mod Tampering
pub mod Head
pub mod Honest
mod Tests
