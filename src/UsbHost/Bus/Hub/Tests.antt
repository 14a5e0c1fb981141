-- ===== src/UsbHost/Bus/Hub/Tests.antt =====
-- cotton-usb-host/src/usb_bus.rs: the events of the root port on a concrete controller.
use cotton.Prelude.{
  ℕ, Bool, ◌≤◌, ◌≢◌, true, false, inl, ◌==◌, if◌then◌else◌, ◌+◌, ◌≡◌, refl, ◌∷◌, [], length, arith,
}
use cotton.Prelude.Bytes.{Bytes}
use cotton.Prelude.Outcome.{returns}
use cotton.Prelude.Result.{Result, ok, err}
use cotton.UsbHost.BitSet as BitSet
use cotton.UsbHost.BitSet.{iter}
use cotton.UsbHost.Topology.Shape.{at}
use cotton.UsbHost.Topology as Topology
use cotton.UsbHost.Topology.Rooted as Rooted
use cotton.UsbHost.Topology.Rooted.{started}
use cotton.UsbHost.HostController.{
  UsbError, UsbSpeed, present, InterruptPacket, DataPhase, data_in, data_out, no_data,
  HostController,
}
use cotton.UsbHost.Bus.Requests.{
  new_device, set_address, get_hub_port_status, clear_port_feature, set_port_feature,
}
use cotton.UsbHost.Bus.Requests.Keeps.{IsBounded}
use cotton.UsbHost.Bus.Hub.{default, connect, root_present, root_event}
use cotton.UsbHost.Bus.Hub.Packet.{
  packet, device_event, handle_hub_packet, visit_ports, investigate, plug, enumerate,
}
use cotton.UsbHost.Bus.Hub.Investigate.{of_hub, device_event-Ends}
use cotton.UsbHost.Bus.Hub.Events.{Ends}

-- A device on the root port that answers with its device descriptor; the state counts requests.
abbrev device_bytes : Bytes
device_bytes = 18 ∷ 1 ∷ 0 ∷ 2 ∷ 0 ∷ 0 ∷ 0 ∷ 64 ∷ 0x81 ∷ 7 ∷ 0x67 ∷ 0x55 ∷ 0 ∷ 1 ∷ 1 ∷ 2 ∷ 3 ∷ 1 ∷ []

abbrev answer : DataPhase → Result UsbError ℕ × Bytes
answer (data_in buf) = (ok 18, device_bytes)
answer (data_out buf) = (ok (length buf), [])
answer no_data = (ok 0, [])

abbrev stick : HostController ℕ (Unit {0})
stick = record {
  reset_root_port = λ b h. h;
  control_transfer = λ address size packet phase h. (answer phase, h + 1);
  bulk_in_transfer = λ a e s buf k t h.
      (record { result = err UsbError.timeout; buffer = buf; data_toggle = t }, h);
  bulk_out_transfer = λ a e s buf k t h.
      (record { result = err UsbError.timeout; buffer = []; data_toggle = t }, h);
  try_alloc_interrupt_pipe = λ a b c d h. (err UsbError.all_pipes_in_use, h);
  delay_ms = λ n h. h;
}

stick-IsBounded : IsBounded stick
stick-IsBounded = record {
  control_in = λ a s packet buf h n q. (let p : 18 ≡ n = cc in omega arith);
}

plugged_in :
    root_event stick (present UsbSpeed.full12) (default, 0)
    ≡ returns (
      connect
          (record { usb_address = 31; usb_speed = UsbSpeed.full12; packet_size_ep0 = 64 })
          (record { vid = 0x0781; pid = 0x5567; class = 0; subclass = 0 }),
      (record default { topology = (Topology.device_connect Topology.new 0 1 false).1 }, 3),
    )
unfolding root_event root_present new_device set_address Topology.device_connect Topology.position
    Topology.last_free Topology.is_present Topology.new default
plugged_in = refl

-- A hub at address 1, with the device newly plugged in and enabled on each of its ports.
abbrev plugged : ℕ → DataPhase → Result UsbError ℕ × Bytes
plugged address (data_in buf) =
    if address == 1 then (ok 4, 3 ∷ 0 ∷ 1 ∷ 0 ∷ []) else (ok 18, device_bytes)
plugged address (data_out buf) = (ok (length buf), [])
plugged address no_data = (ok 0, [])

abbrev hub : HostController ℕ (Unit {0})
hub = record stick {
  control_transfer = λ address size packet phase h. (plugged address phase, h + 1);
}

plugged_in_bounds :
    (b : Bool) (n : ℕ)
    → (if◌then◌else◌ {A = Result UsbError ℕ × Bytes} b
        (ok 4, 3 ∷ 0 ∷ 1 ∷ 0 ∷ [])
        (ok 18, device_bytes)).0
      ≡ ok n
    → n
      ≤ length
          (if◌then◌else◌ {A = Result UsbError ℕ × Bytes} b
            (ok 4, 3 ∷ 0 ∷ 1 ∷ 0 ∷ [])
            (ok 18, device_bytes)).1
plugged_in_bounds true n q = let p : 4 ≡ n = cc in omega arith
plugged_in_bounds false n q = let p : 18 ≡ n = cc in omega arith

hub-IsBounded : IsBounded hub
hub-IsBounded = record { control_in = λ a s packet buf h n q. plugged_in_bounds (a == 1) n q }

abbrev with_hub : Topology.Topology
with_hub = (Topology.device_connect Topology.new 0 1 true).1

-- Port 3 has changed.
abbrev port_three : InterruptPacket
port_three = record { address = 1; endpoint = 1; size = 1; bytes = 8 ∷ [] }

behind_hub :
    device_event hub (packet port_three) (record { topology = with_hub; pipes = [] }, 0)
    ≡ returns (
      connect
          (record { usb_address = 31; usb_speed = UsbSpeed.full12; packet_size_ep0 = 64 })
          (record { vid = 0x0781; pid = 0x5567; class = 0; subclass = 0 }),
      (record { topology = (Topology.device_connect with_hub 1 3 false).1; pipes = [] }, 7),
    )
unfolding device_event handle_hub_packet visit_ports investigate plug enumerate iter BitSet.collect
    BitSet.next BitSet.trailing_zeros get_hub_port_status clear_port_feature set_port_feature
    new_device set_address Topology.device_connect Topology.position Topology.last_free
    Topology.first_free Topology.is_present Topology.new
behind_hub = refl

hub_present : at with_hub 1 ≢ 0
unfolding Topology.device_connect Topology.position Topology.first_free Topology.is_present
    Topology.new
hub_present = λ e. omega (arith, e)

device_event-Ends_example :
    Ends hub hub-IsBounded
      (device_event hub (packet port_three) (record { topology = with_hub; pipes = [] }, 0))
device_event-Ends_example =
    device_event-Ends hub hub-IsBounded (packet port_three)
      (record { topology = with_hub; pipes = [] }, 0)
      (Rooted.connected Topology.new 0 1 true started (inl (refl, refl)))
      (of_hub port_three (record { first = omega arith; second = omega arith }) (omega arith)
        hub_present)
