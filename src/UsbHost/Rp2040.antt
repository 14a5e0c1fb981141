-- ===== src/UsbHost/Rp2040.antt =====
-- cotton-usb-host/src/host/rp2040.rs: the host controller of the RP2040.
mod Tests
pub mod Dpram
pub mod Packetiser
pub mod Depacketiser
pub mod Pac
pub mod Polls
pub mod Transfer
pub mod Inner
pub mod Pipes
pub mod Controller
pub mod Interrupts
pub mod Sending
pub mod Receiving
