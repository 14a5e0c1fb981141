-- ===== src/UsbHost/Bus/Hub/Packet.antt =====
-- cotton-usb-host/src/usb_bus.rs: the packets of hubs, and the events of both kinds.
use cotton.Prelude.{
  ℕ, ◌+◌, ◌*◌, ◌^◌, ◌==◌, Bool, true, false, Option, none, some, List, [], ◌∷◌, get_or, ltb,
  bit_and, bit_or, if◌then◌else◌,
}
use cotton.Prelude.Outcome.{Outcome, returns, panics}
use cotton.Prelude.Result.{ok, err}
use cotton.UsbHost.BitSet.{BitSet, trailing_zeros, iter}
use cotton.UsbHost.Topology.{Topology, device_connect, device_disconnect}
use cotton.UsbHost.HostController.{
  UsbError, UsbSpeed, DeviceStatus, present, absent, InterruptPacket, HostController, Usb, ◌>>=◌,
  ret, fail, act,
}
use cotton.UsbHost.Wire.Descriptors.{hub_classcode, port_reset}
use cotton.UsbHost.Bus.Requests.{
  new_device, set_address, get_hub_port_status, clear_port_feature, set_port_feature,
}
use cotton.UsbHost.Bus.Hub.{
  DeviceEvent, connect, disconnect, no_event, Hubs, beside, connected, reported, root_event,
}

-- The ports that a packet tells of.
abbrev pub port_bitmap : InterruptPacket → BitSet
port_bitmap packet = record {
  bits =
      (if ltb 1 packet.size
        then bit_or (get_or packet.bytes 0 0) (get_or packet.bytes 1 0 * 2 ^ 8)
        else get_or packet.bytes 0 0);
}

-- USB 2.0 table 11-21
abbrev pub port_speed : ℕ → UsbSpeed
port_speed state =
    if bit_and state 0x600 == 0
    then UsbSpeed.full12
    else if bit_and state 0x600 == 0x400
    then UsbSpeed.high480
    else UsbSpeed.low1_5

module _ {H P : Type 0} (driver : HostController H P) where
  abbrev pub unplugged : Option (BitSet × Topology) → Usb (Hubs driver) DeviceEvent
  unplugged none s = panics
  unplugged (some (mask, t)) s = returns (ok (disconnect mask), (record s.0 { topology = t }, s.1))

  abbrev pub placed : Option ℕ × Topology → Usb (Hubs driver) ℕ
  placed (none, t) s = returns (err UsbError.too_many_devices, (record s.0 { topology = t }, s.1))
  placed (some a, t) s = returns (ok a, (record s.0 { topology = t }, s.1))

  abbrev pub unplug : ℕ → ℕ → Usb (Hubs driver) DeviceEvent
  unplug address port s = unplugged (device_disconnect s.0.topology address port) s

  abbrev pub place : ℕ → ℕ → Bool → Usb (Hubs driver) ℕ
  place address port is_hub s = placed (device_connect s.0.topology address port is_hub) s

  -- A device on a port that is enabled.
  unfoldable pub enumerate : ℕ → ℕ → UsbSpeed → Usb (Hubs driver) DeviceEvent
  enumerate hub_address port speed = do
    r ← new_device (beside driver) speed
    address ← place hub_address port (r.1.class == hub_classcode)
    device ← set_address (beside driver) r.0 address
    connected driver (r.1.class == hub_classcode) device r.1

  -- A port with something new on it: the ports behind it are looked at only if it is not enabled.
  unfoldable pub plug : ℕ → ℕ → Usb (Hubs driver) DeviceEvent → Usb (Hubs driver) DeviceEvent
  plug address port rest = do
    reset ← set_port_feature (beside driver) address port port_reset
    held ← act ((beside driver).delay_ms 50)
    r ← get_hub_port_status (beside driver) address port
    if bit_and r.0 2 == 0 then rest else enumerate address port (port_speed r.0)

  abbrev pub cleared : ℕ → ℕ → ℕ → Usb (Hubs driver) (Unit {0})
  cleared address port bit =
      if ltb bit 5 then clear_port_feature (beside driver) address port (bit + 16) else ret tt

  abbrev pub changed : ℕ → ℕ → ℕ → ℕ → Usb (Hubs driver) DeviceEvent → Usb (Hubs driver) DeviceEvent
  changed address port bit state rest =
      if bit == 0
      then (if bit_and state 1 == 0 then unplug address port else plug address port rest)
      else rest

  -- The first change of a port; the others stay for the next packet.
  unfoldable pub investigate :
      ℕ → ℕ → ℕ × ℕ → Usb (Hubs driver) DeviceEvent → Usb (Hubs driver) DeviceEvent
  investigate address port r rest =
      if r.1 == 0
      then rest
      else cleared address port (trailing_zeros 16 r.1) >>= λ _.
          changed address port (trailing_zeros 16 r.1) r.0 rest

  -- `for port in port_bitmap.iter()`
  unfoldable pub visit_ports : ℕ → List ℕ → Usb (Hubs driver) DeviceEvent
  visit_ports address [] = ret no_event
  visit_ports address (port ∷ ports) = get_hub_port_status (beside driver) address port >>= λ r.
      investigate address port r (visit_ports address ports)

  unfoldable pub handle_hub_packet : InterruptPacket → Usb (Hubs driver) DeviceEvent
  handle_hub_packet packet =
      if packet.size == 0
      then fail UsbError.protocol_error
      else visit_ports packet.address (iter (port_bitmap packet))

pub data InternalEvent : Type 0 where
  root : DeviceStatus → InternalEvent
  packet : InterruptPacket → InternalEvent

module _ {H P : Type 0} (driver : HostController H P) where
  -- What an item of the merged streams becomes.
  unfoldable pub device_event : InternalEvent → Hubs driver → Outcome (DeviceEvent × Hubs driver)
  device_event (root status) s = root_event driver status s
  device_event (packet p) s = reported (handle_hub_packet driver p s)

  unfoldable pub no_hubs_present : UsbSpeed → Usb H DeviceEvent
  no_hubs_present speed = do
    on ← act (driver.reset_root_port true)
    held ← act (driver.delay_ms 50)
    off ← act (driver.reset_root_port false)
    recovered ← act (driver.delay_ms 10)
    r ← new_device driver speed
    device ← set_address driver r.0 1
    ret (connect device r.1)

  -- An item of device_events_no_hubs: the device is always given address 1.
  unfoldable pub device_event_no_hubs : DeviceStatus → H → Outcome (DeviceEvent × H)
  device_event_no_hubs (present speed) s = reported (no_hubs_present speed s)
  device_event_no_hubs absent s = returns (disconnect (record { bits = 0xFFFF_FFFF }), s)

-- `HubStateStream`: the first of the pipes that is ready, with what a poll leaves of each. `poll` is
-- that of a pipe, with nothing where it is pending.
module _ {P M : Type 0} (poll : P → M → Option (Option InterruptPacket) × P × M) where
  abbrev pub Polled : Type 0
  Polled = Option (Option InterruptPacket) × List (Option P) × M

  abbrev pub polled :
      Option (Option InterruptPacket) × P × M → List (Option P) → (M → Polled) → Polled
  polled (some item, p, m) ps rest = (some item, some p ∷ ps, m)
  polled (none, p, m) ps rest = let r = rest m in (r.0, some p ∷ r.1, r.2)

  unfoldable pub poll_hubs : List (Option P) → M → Polled
  poll_hubs [] m = (none, [], m)
  poll_hubs (none ∷ ps) m = let r = poll_hubs ps m in (r.0, none ∷ r.1, r.2)
  poll_hubs (some p ∷ ps) m = polled (poll p m) ps (poll_hubs ps)
