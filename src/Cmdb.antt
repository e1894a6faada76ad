-- ===== src/Cmdb.antt =====
-- terraform-hcl-standard/scripts/cmdb_v1.py: the resources that a CMDB document lists.
pub mod Words
pub mod Keys
pub mod Environment
pub mod Endpoint
pub mod Resource
pub mod Document
pub mod Merge
pub mod Samples
