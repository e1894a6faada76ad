-- ===== src/Observations.antt =====
-- terraform-hcl-standard/scripts/cmdb_observations_v1.py: what collectors observe of resources.
pub mod Checks
pub mod Keys
pub mod Item
pub mod Envelope
pub mod Deduplicate
pub mod Desired
pub mod Scope
pub mod Reconcile
pub mod Buckets
pub mod Report
