-- ===== src/Contracts.antt =====
-- scripts/pipeline/unified/contracts.py: declarations are validated before anything runs.
pub mod Ownership
pub mod Secrets
pub mod Checkout
pub mod Target
pub mod Catalog
pub mod Prepare
pub mod Transition
mod Samples
mod Tests
