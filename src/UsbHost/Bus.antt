-- ===== src/UsbHost/Bus.antt =====
-- cotton-usb-host/src/usb_bus.rs: devices, their endpoints, and the requests of a bus.
pub mod Device
pub mod Requests
pub mod Hub
