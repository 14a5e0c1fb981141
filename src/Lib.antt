-- ===== src/Lib.antt =====
-- Cotton: USB hosting, SCSI over USB mass storage, and service discovery, for small systems.
--
-- Parts, and how they interact
--   UsbHost     cotton-usb-host/src. A bus over a host controller: requests to devices, the table of
--               which device hangs on which hub, and a pool of the controller's resources.
--   Scsi        cotton-scsi/src. A SCSI device over any transport, and a block device over that.
--   Msc         cotton-usb-host-msc/src. The transport that mass-storage devices offer: it uses the bulk
--               endpoints of UsbHost and fills the interface that Scsi takes.
--   Ssdp        cotton-ssdp/src. Service discovery: the messages, the timer of the repeated notifications,
--               and the engine, which takes packets, timeouts and the network events of Netif, and
--               sends through sockets that it is given.
--   Netif       cotton-netif/src. The events of network interfaces, and the snapshot of those that are there.
--   Unique      cotton-unique/src. Identifiers, MAC addresses and UUIDs from the identifier of a chip.
--   Prelude     What the parts share: tests on numbers, lists, bits, bytes, results, and `Outcome`, which
--               tells code that returns from code that panics.
--
-- Files and the source
--   UsbHost/BitSet         bitset.rs. The bits are a number below 2 ^ 32.
--   UsbHost/Topology       topology.rs. `parent` is a list of 32 bytes; the loop of `device_disconnect`
--                          has fuel for 33 rounds, since each round but the last clears an entry.
--   UsbHost/Pool           async_pool.rs. A `Cell` is a field of the pool; a task is the waker that it
--                          hands to `poll`, of any type. Pool/Ownership has the tasks' interleavings.
--   UsbHost/Wire           wire.rs. The visitor is a record of functions on its state. The loop of
--                          `parse_descriptors` has fuel for one round more than there are bytes, and a
--                          round takes two bytes or more.
--   UsbHost/HostController host_controller.rs. The controller is a parameter: functions on the state of
--                          the hardware, so that the calls stand in the order of the awaits.
--   UsbHost/Bus            usb_bus.rs. Device has the handles of devices and endpoints, Requests the
--                          control and bulk requests, Hub the state of the hubs, the events of the
--                          root port and, in Hub/Packet, the packets of the hubs: the state of the hardware stands beside the hub state, and the
--                          delay is a call of the controller.
--   UsbHost/Rp2040         host/rp2040.rs. Pac has the registers of the crate rp2040_pac, which are a
--                          parameter; Dpram the memory shared with the chip; Polls code that awaits: a
--                          schedule lists what the world does before each poll, and where it ends the
--                          code is still pending, so no fuel is needed. Packetiser and Depacketiser fill
--                          and empty the buffers; Transfer has the SETUP packet, Inner the loop of
--                          `control_transfer_inner`, Controller the transfers, Pipes the pools, and
--                          Interrupts the handler, device detection and interrupt pipes. Sending and
--                          Receiving have the chip that an `Out` and an `In` transfer need.
--   Scsi/Transport         scsi_transport.rs. The transport is a parameter, like the controller.
--   Scsi/Commands, Sense, Device    scsi_device.rs. The command blocks; the tables of sense codes; the
--                          methods of `ScsiDevice`, with the upgrade of a failed command.
--   Scsi/BlockDevice       scsi_block_device.rs, async_block_device.rs.
--   Msc/Identify, Wrapper, Transport    mass_storage.rs.
--   Ssdp/RefreshTimer      refresh_timer.rs. The timebase is a parameter, with spans in milliseconds.
--   Ssdp/Text, BTreeMap    What cotton-ssdp uses of the texts and the ordered maps of Rust. A text is its
--                          bytes in UTF-8, and a map a list in the order of the keys.
--   Ssdp/Message           message.rs. A builder takes the buffer and returns the position and the
--                          buffer; the pieces of a message are what one `write!` hands to `write_str`.
--   Ssdp/Udp               udp.rs. The traits of the sockets are records of functions on a state; the
--                          addresses of no_std_net are of any two types, with the functions used.
--   Ssdp/Engine            engine.rs, event.rs. Target has target_match and Url rewrite_host; Timeouts,
--                          Events and Network have what the engine does when time has passed, with a
--                          packet, and with a network event. The keys of the subscriptions are left out,
--                          since no subscription is ever removed. A callback acts on a state.
--   Ssdp/Service           service.rs, and the calls of async_service.rs. A socket that is ready is a list of
--                          packets, and the event loop a list of calls.
--   Netif                  network_event.rs. An interface index is a number.
--   Netif/Flags, GetIfAddrs    getifaddrs.rs, over the functions of the crate nix as a parameter.
--   Netif/Netlink          linux_netlink.rs: the translation of messages, over the types of the crate neli.
--                          Its map_flags has the loop of map_interface_flags.
--   Unique                 cotton-unique/src/lib.rs. The keyed hash is a parameter, and its argument the list
--                          of what is written to it.
--
-- Conventions
--   An integer of w bits is a natural number; a cast or a wrapping sum is written `% 2 ^ w`. Slices that
--   are too short and assertions that fail are `panics`. A buffer that the source fills in place is an
--   argument and a result. Structures that the source casts to bytes are written out as bytes, on a
--   little-endian machine.
--
-- Not modelled
--   The driver of cotton-w5500, the traces and short delays of rp2040.rs, the merging of
--   the streams of usb_bus.rs, the sockets of cotton-ssdp, the netlink sockets of
--   cotton-netif, the firmware under cross, and all printing.
pub mod Prelude
pub mod UsbHost
pub mod Unique
pub mod Scsi
pub mod Msc
pub mod Netif
pub mod Ssdp
