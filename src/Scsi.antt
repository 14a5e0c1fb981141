-- ===== src/Scsi.antt =====
-- The crate cotton-scsi: SCSI disks over an abstract transport.
pub mod Transport
pub mod Commands
pub mod Sense
pub mod Device
pub mod BlockDevice
