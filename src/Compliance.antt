-- ===== src/Compliance.antt =====
-- The evidence pack of the images: compliance/build_evidence.py.
pub mod Paths
pub mod Notices
pub mod Inventory
