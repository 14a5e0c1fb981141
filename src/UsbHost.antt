-- ===== src/UsbHost.antt =====
-- The crate cotton-usb-host: a USB host stack.
pub mod BitSet
pub mod Topology
pub mod Pool
pub mod Wire
pub mod HostController
pub mod Bus
pub mod Rp2040
