-- ===== src/Machine.antt =====
-- machine: services that the cores share.
pub mod Checksum
