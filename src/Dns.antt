-- ===== src/Dns.antt =====
-- scripts/pipeline/dns-reconcile.py: one DNS record is planned, applied and restored.
pub mod Record
pub mod Host
pub mod Plan
pub mod Validate
pub mod Checkpoint
pub mod Apply
pub mod Restore
mod Samples
mod Tests
