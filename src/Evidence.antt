-- ===== src/Evidence.antt =====
-- scripts/pipeline/unified/evidence.py: what a plan may change, and what a receipt must prove.
pub mod Rebind
pub mod Guard
pub mod Receipts
pub mod Inventory
pub mod Summary
mod Samples
