-- ===== src/Command.antt =====
-- The programs under cmd/ that start the driver and that run `iscsiadm` on the host.
pub mod Plugin
pub mod Iscsiadm
