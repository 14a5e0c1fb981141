-- ===== src/Msc.antt =====
-- The crate cotton-usb-host-msc: SCSI commands to a USB mass-storage device.
pub mod Identify
pub mod Wrapper
pub mod Transport
