-- ===== src/Ssdp.antt =====
-- The crate cotton-ssdp: discovery of services on a local network.
pub mod RefreshTimer
pub mod Text
pub mod Message
pub mod BTreeMap
pub mod Udp
pub mod Engine
pub mod Service
