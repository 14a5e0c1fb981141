-- ===== src/UsbHost/Bus/Hub.antt =====
-- cotton-usb-host/src/usb_bus.rs: the hub state, new hubs, and the events of the root port.
pub mod Events
pub mod Packet
pub mod Ports
pub mod Investigate
mod Tests
use cotton.Prelude.{
  ℕ, zero, suc, ◌+◌, ◌*◌, ◌^◌, ◌==◌, Bool, true, false, Option, none, some, List, [], ◌∷◌, get_or,
  set, replicate, bit_or, if◌then◌else◌,
}
use cotton.Prelude.Outcome.{Outcome, returns, panics}
use cotton.Prelude.Result.{Result, ok, err}
use cotton.UsbHost.BitSet.{BitSet, trailing_zeros}
use cotton.UsbHost.Topology as Topology
use cotton.UsbHost.Topology.{Topology, device_connect, device_disconnect}
use cotton.UsbHost.HostController.{
  UsbError, UsbSpeed, DeviceStatus, present, absent, data_in, HostController, Usb, ◌>>=◌, ◌>>◌, ret,
  act,
}
use cotton.UsbHost.Wire.Descriptors.{
  device_to_host, class_request, get_descriptor, hub_descriptor, hub_classcode, port_power,
}
use cotton.UsbHost.Bus.Device.{DeviceInfo, UnaddressedDevice, UnconfiguredDevice, UsbDevice}
use cotton.UsbHost.Bus.Requests.{
  setup, control, at_least, new_device, set_address, get_basic_configuration, configure,
  set_port_feature,
}

pub data DeviceEvent : Type 0 where
  connect : UnconfiguredDevice → DeviceInfo → DeviceEvent
  hub_connect : UsbDevice → DeviceEvent
  disconnect : BitSet → DeviceEvent
  enumeration_error : ℕ → ℕ → UsbError → DeviceEvent
  no_event : DeviceEvent

-- `pipes` has 15 slots.
pub record HubState (P : Type 0) : Type 0 where
  pub topology : Topology
  pub pipes : List (Option P)

unfoldable pub default : {P : Type 0} → HubState P
default = record { topology = Topology.new; pipes = replicate 15 none }

-- The controller, beside a hub state that it does not touch.
abbrev pub beside : {H P : Type 0} → HostController H P → HostController (HubState P × H) P
beside driver = record {
  reset_root_port = λ b s. (s.0, driver.reset_root_port b s.1);
  control_transfer = λ a size packet phase s.
      (let t = driver.control_transfer a size packet phase s.1 in (t.0, (s.0, t.1)));
  bulk_in_transfer = λ a e size buf kind toggle s.
      (let t = driver.bulk_in_transfer a e size buf kind toggle s.1 in (t.0, (s.0, t.1)));
  bulk_out_transfer = λ a e size buf kind toggle s.
      (let t = driver.bulk_out_transfer a e size buf kind toggle s.1 in (t.0, (s.0, t.1)));
  try_alloc_interrupt_pipe = λ a e size ms s.
      (let t = driver.try_alloc_interrupt_pipe a e size ms s.1 in (t.0, (s.0, t.1)));
  delay_ms = λ ms s. (s.0, driver.delay_ms ms s.1);
}

-- The first slot that is free.
unfoldable pub free_slot : {P : Type 0} → ℕ → List (Option P) → Option ℕ
free_slot i [] = none
free_slot i (none ∷ ps) = some i
free_slot i (some p ∷ ps) = free_slot (suc i) ps

-- The errors of an enumeration are an event too.
abbrev pub reported :
    {S : Type 0} → Outcome (Result UsbError DeviceEvent × S) → Outcome (DeviceEvent × S)
reported panics = panics
reported (returns (ok ev, s)) = returns (ev, s)
reported (returns (err e, s)) = returns (enumeration_error 0 1 e, s)

module _ {H P : Type 0} (driver : HostController H P) where
  abbrev pub Hubs : Type 0
  Hubs = HubState P × H

  abbrev pub fill : ℕ → Result UsbError P × Hubs → Outcome (Result UsbError (Unit {0}) × Hubs)
  fill i (ok p, (s, h)) = returns (ok tt, (record s { pipes = set s.pipes i (some p) }, h))
  fill i (err e, s) = returns (err e, s)

  abbrev pub fill_slot : ℕ → ℕ → ℕ → ℕ → Option ℕ → Usb Hubs (Unit {0})
  fill_slot address endpoint size ms none s = returns (err UsbError.too_many_devices, s)
  fill_slot address endpoint size ms (some i) s =
      fill i ((beside driver).try_alloc_interrupt_pipe address endpoint size ms s)

  unfoldable pub try_add : ℕ → ℕ → ℕ → ℕ → Usb Hubs (Unit {0})
  try_add address endpoint size ms s = fill_slot address endpoint size ms (free_slot 0 s.0.pipes) s

  -- `for port in 1..=ports`, at `port` with `left` rounds to go.
  unfoldable pub power_ports : ℕ → ℕ → ℕ → Usb Hubs (Unit {0})
  power_ports address port zero = ret tt
  power_ports address port (suc left) =
      set_port_feature (beside driver) address port port_power >>= λ _.
      power_ports address (suc port) left

  unfoldable pub new_hub : UnconfiguredDevice → Usb Hubs UsbDevice
  new_hub device = do
    bc ← get_basic_configuration (beside driver) device
    device ← configure (beside driver) device bc.configuration_value
    added ← try_add device.usb_address (trailing_zeros 16 bc.in_endpoints) device.packet_size_ep0 9
    r ←
        control (beside driver) device.usb_address device.packet_size_ep0
          (setup (bit_or device_to_host class_request) get_descriptor (hub_descriptor * 2 ^ 8) 0 64)
          (data_in (replicate 64 0))
    descriptors ← at_least (beside driver) 9 r
    powered ← power_ports device.usb_address 1 (get_or descriptors 2 0)
    ret device

  abbrev pub addressed : Option ℕ × Topology → Usb Hubs ℕ
  addressed (none, t) s = panics
  addressed (some a, t) s = returns (ok a, (record s.0 { topology = t }, s.1))

  -- `expect("Root connect should always succeed")`
  abbrev pub root_address : Bool → Usb Hubs ℕ
  root_address is_hub s = addressed (device_connect s.0.topology 0 1 is_hub) s

  abbrev pub connected : Bool → UnconfiguredDevice → DeviceInfo → Usb Hubs DeviceEvent
  connected is_hub device info =
      if is_hub then (do hub ← new_hub device; ret (hub_connect hub)) else ret (connect device info)

  unfoldable pub root_present : UsbSpeed → Usb Hubs DeviceEvent
  root_present speed = do
    on ← act ((beside driver).reset_root_port true)
    held ← act ((beside driver).delay_ms 50)
    off ← act ((beside driver).reset_root_port false)
    recovered ← act ((beside driver).delay_ms 10)
    r ← new_device (beside driver) speed
    address ← root_address (r.1.class == hub_classcode)
    device ← set_address (beside driver) r.0 address
    connected (r.1.class == hub_classcode) device r.1

  abbrev pub detached : Option (BitSet × Topology) → Hubs → Outcome (DeviceEvent × Hubs)
  detached none s = panics
  detached (some (gone, t)) s =
      returns (disconnect (record { bits = 0xFFFF_FFFF }), (record s.0 { topology = t }, s.1))

  -- `InternalEvent::Root(status)`
  unfoldable pub root_event : DeviceStatus → Hubs → Outcome (DeviceEvent × Hubs)
  root_event (present speed) s = reported (root_present speed s)
  root_event absent s = detached (device_disconnect s.0.topology 0 1) s
