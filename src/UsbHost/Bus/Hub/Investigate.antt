-- ===== src/UsbHost/Bus/Hub/Investigate.antt =====
-- cotton-usb-host/src/usb_bus.rs: the packets of hubs keep the table of devices rooted.
use cotton.Prelude.{
  ℕ, ◌+◌, ◌<◌, ◌≢◌, ◌==◌, Bool, Bool-cases, inl, inr, Option, none, some, List, ◌∷◌, ltb, bit_and,
}
use cotton.Prelude.Bits.{bit}
use cotton.Prelude.Outcome.{Outcome, returns, panics}
use cotton.Prelude.Result.{Result, ok, err}
use cotton.UsbHost.BitSet.{trailing_zeros}
use cotton.UsbHost.Topology.{Topology, device_connect}
use cotton.UsbHost.Topology.Shape.{at}
use cotton.UsbHost.Topology.Disconnect.{device_disconnect-Detaches}
use cotton.UsbHost.Topology.Rooted as Rooted
use cotton.UsbHost.Topology.Rooted.{Reach, Reach-Rooted}
use cotton.UsbHost.HostController.{
  UsbError, UsbSpeed, DeviceStatus, InterruptPacket, no_data, HostController, Usb, and_then,
}
use cotton.UsbHost.Wire.Descriptors.{hub_classcode, port_reset}
use cotton.UsbHost.Bus.Requests.{
  control, new_device, set_address, get_hub_port_status, clear_port_feature, set_port_feature,
}
use cotton.UsbHost.Bus.Requests.Keeps.{
  IsBounded, Keeps, and_then-Keeps, control-Keeps, set_address-Keeps, new_device-Keeps,
}
use cotton.UsbHost.Bus.Hub.{DeviceEvent, HubState, Hubs, beside}
use cotton.UsbHost.Bus.Hub.Events.{HasReach, Ends, connected-Keeps, reported-Ends, root_event-Ends}
use cotton.UsbHost.Bus.Hub.Packet.{
  port_bitmap, port_speed, placed, unplug, place, enumerate, plug, cleared, changed, investigate,
  visit_ports, handle_hub_packet, InternalEvent, root, packet, device_event,
}
use cotton.UsbHost.Bus.Hub.Ports.{
  ArePorts, none_left, next, iter-ArePorts, IsPacket, port_bitmap-lt,
}

and_then-Passes :
    {H A B : Type 0} (I J : H → Type 0) (f : A → Usb H B) (o : Outcome (Result UsbError A × H))
    → ((h : H) → I h → J h)
    → Keeps I o
    → ((a : A) (h : H) → I h → Keeps J (f a h))
    → Keeps J (and_then f o)
and_then-Passes I J f (returns (ok a, h)) w r k = k a h r
and_then-Passes I J f (returns (err e, h)) w r k = w h r
and_then-Passes I J f panics w r k = elim r [ ]

-- Requests to a hub, whatever is known of the table of devices.
module _ {H P : Type 0} (driver : HostController H P) (G : HubState P → Type 0) where
  set_port_feature-Keeps :
      (address port feature : ℕ) (s : Hubs driver)
      → G s.0
      → Keeps (λ h. G h.0) (set_port_feature (beside driver) address port feature s)
  unfolding set_port_feature
  set_port_feature-Keeps address port feature s x =
      and_then-Keeps _ _ (control (beside driver) address 8 _ no_data s)
        (control-Keeps (λ h. G h.0) (beside driver) (λ a z p d h i. i) address 8 _ no_data s x)
        (λ r s x. x)

  clear_port_feature-Keeps :
      (address port feature : ℕ) (s : Hubs driver)
      → G s.0
      → Keeps (λ h. G h.0) (clear_port_feature (beside driver) address port feature s)
  unfolding clear_port_feature
  clear_port_feature-Keeps address port feature s x =
      and_then-Keeps _ _ (control (beside driver) address 8 _ no_data s)
        (control-Keeps (λ h. G h.0) (beside driver) (λ a z p d h i. i) address 8 _ no_data s x)
        (λ r s x. x)

  get_hub_port_status-Keeps :
      (address port : ℕ) (s : Hubs driver)
      → G s.0
      → Keeps (λ h. G h.0) (get_hub_port_status (beside driver) address port s)
  unfolding get_hub_port_status
  get_hub_port_status-Keeps address port s x =
      and_then-Keeps _ _ (control (beside driver) address 8 _ _ s)
        (control-Keeps (λ h. G h.0) (beside driver) (λ a z p d h i. i) address 8 _ _ s x)
        (λ r s x. x)

  cleared-Keeps :
      (address port bit : ℕ) (s : Hubs driver)
      → G s.0
      → Keeps (λ h. G h.0) (cleared driver address port bit s)
  cleared-Keeps address port bit s x = elim (Bool-cases (ltb bit 5)) [
    | inl q ↦ rw q (clear_port_feature-Keeps address port (bit + 16) s x)
    | inr q ↦ rw q x
  ]

-- A table that a bus can come to, with a hub on it.
record HasHub {P : Type 0} (address : ℕ) (s : HubState P) : Type 0 where
  reach : Reach s.topology
  present : at s.topology address ≢ 0

module _ {H P : Type 0} (driver : HostController H P) (bounded : IsBounded driver) where
  unplug-Keeps :
      (address port : ℕ) (s : Hubs driver)
      → HasHub address s.0
      → address < 16
      → port < 16
      → Keeps (HasReach driver bounded) (unplug driver address port s)
  unplug-Keeps address port s x a b =
      let d =
        device_disconnect-Detaches s.0.topology (Reach-Rooted s.0.topology x.reach).0 address port a
          b in
      rw d.ends (Rooted.disconnected s.0.topology d.left address port d.gone x.reach d.ends)

  placed-Keeps :
      (r : Option ℕ × Topology) (s : Hubs driver)
      → Reach r.1
      → Keeps (HasReach driver bounded) (placed driver r s)
  placed-Keeps (none, t) s x = x
  placed-Keeps (some a, t) s x = x

  place-Keeps :
      (address port : ℕ) (is_hub : Bool) (s : Hubs driver)
      → HasHub address s.0
      → Keeps (HasReach driver bounded) (place driver address port is_hub s)
  place-Keeps address port is_hub s x =
      placed-Keeps (device_connect s.0.topology address port is_hub) s
        (Rooted.connected s.0.topology address port is_hub x.reach (inr x.present))

  enumerate-Keeps :
      (address port : ℕ) (speed : UsbSpeed) (s : Hubs driver)
      → HasHub address s.0
      → Keeps (HasReach driver bounded) (enumerate driver address port speed s)
  unfolding enumerate
  enumerate-Keeps address port speed s x =
      and_then-Passes (λ h. HasHub address h.0) (HasReach driver bounded) _
        (new_device (beside driver) speed s) (λ h y. y.reach)
        (new_device-Keeps (λ h. HasHub address h.0) (beside driver) (λ a z p d h i. i) speed s x)
        (λ r s x.
          and_then-Keeps _ _ (place driver address port _ s) (place-Keeps address port _ s x)
            (λ i s x.
              and_then-Keeps _ _ (set_address (beside driver) r.0 i s)
                (set_address-Keeps _ (beside driver) (λ a z p d h i. i) r.0 i s x)
                (λ device s x.
                  connected-Keeps driver bounded (r.1.class == hub_classcode) device r.1 s x)))

  -- The rest of the ports of the packet.
  abbrev Continues : ℕ → Usb (Hubs driver) DeviceEvent → Type 0
  Continues address rest =
      (s : Hubs driver) → HasHub address s.0 → Keeps (HasReach driver bounded) (rest s)

  plug-Keeps :
      (address port : ℕ) (rest : Usb (Hubs driver) DeviceEvent)
      → Continues address rest
      → Continues address (plug driver address port rest)
  unfolding plug
  plug-Keeps address port rest k s x =
      and_then-Passes (λ h. HasHub address h.0) (HasReach driver bounded) _
        (set_port_feature (beside driver) address port port_reset s) (λ h y. y.reach)
        (set_port_feature-Keeps driver (HasHub address) address port port_reset s x)
        (λ u s x.
          and_then-Passes (λ h. HasHub address h.0) (HasReach driver bounded) _
            (get_hub_port_status (beside driver) address port _) (λ h y. y.reach)
            (get_hub_port_status-Keeps driver (HasHub address) address port _ x)
            (λ r s x. elim (Bool-cases (bit_and r.0 2 == 0)) [
              | inl q ↦ rw q (k s x)
              | inr q ↦ rw q (enumerate-Keeps address port (port_speed r.0) s x)
            ]))

  changed-Keeps :
      (address port bit state : ℕ) (rest : Usb (Hubs driver) DeviceEvent)
      → address < 16
      → port < 16
      → Continues address rest
      → Continues address (changed driver address port bit state rest)
  changed-Keeps address port bit state rest a b k s x = elim (Bool-cases (bit == 0)) [
    | inr q ↦ rw q (k s x)
    | inl q ↦ elim (Bool-cases (bit_and state 1 == 0)) [
      | inl p ↦ rw (q, p) (unplug-Keeps address port s x a b)
      | inr p ↦ rw (q, p) (plug-Keeps address port rest k s x)
    ]
  ]

  investigate-Keeps :
      (address port : ℕ) (r : ℕ × ℕ) (rest : Usb (Hubs driver) DeviceEvent)
      → address < 16
      → port < 16
      → Continues address rest
      → Continues address (investigate driver address port r rest)
  unfolding investigate
  investigate-Keeps address port r rest a b k s x = elim (Bool-cases (r.1 == 0)) [
    | inl q ↦ rw q (k s x)
    | inr q ↦ rw q (
        and_then-Passes (λ h. HasHub address h.0) (HasReach driver bounded) _
          (cleared driver address port (trailing_zeros 16 r.1) s) (λ h y. y.reach)
          (cleared-Keeps driver (HasHub address) address port (trailing_zeros 16 r.1) s x)
          (λ u s x. changed-Keeps address port (trailing_zeros 16 r.1) r.0 rest a b k s x))
  ]

  visit_ports-Keeps :
      (address : ℕ) {ports : List ℕ}
      → ArePorts ports
      → address < 16
      → Continues address (visit_ports driver address ports)
  unfolding visit_ports
  visit_ports-Keeps address none_left a s x = x.reach
  visit_ports-Keeps address {ports = port ∷ ports} (next b more) a s x =
      and_then-Passes (λ h. HasHub address h.0) (HasReach driver bounded) _
        (get_hub_port_status (beside driver) address port s) (λ h y. y.reach)
        (get_hub_port_status-Keeps driver (HasHub address) address port s x)
        (λ r s x. investigate-Keeps address port r _ a b (visit_ports-Keeps address more a) s x)

  handle_hub_packet-Keeps :
      (p : InterruptPacket) (s : Hubs driver)
      → IsPacket p
      → p.address < 16
      → HasHub p.address s.0
      → Keeps (HasReach driver bounded) (handle_hub_packet driver p s)
  unfolding handle_hub_packet
  handle_hub_packet-Keeps p s i a x = elim (Bool-cases (p.size == 0)) [
    | inl q ↦ rw q x.reach
    | inr q ↦
        rw q
          (visit_ports-Keeps p.address (iter-ArePorts (port_bitmap p) (port_bitmap-lt p i)) a s x)
  ]

  -- What may come in: a change of the root port, or a packet of a hub that is in the table.
  pub data Comes (s : Hubs driver) : InternalEvent → Type 0 where
    of_root : (status : DeviceStatus) → Comes s (root status)
    of_hub :
        (p : InterruptPacket)
        → IsPacket p
        → p.address < 16
        → at s.0.topology p.address ≢ 0
        → Comes s (packet p)

  -- From every state whose table of devices a bus can come to, and over a controller that never
  -- claims more bytes of a control transfer than the buffer holds, neither a change of the root port
  -- nor a packet of a hub with an address below 16 that is in the table makes the bus panic, and the
  -- table stays one that a bus can come to.
  pub device_event-Ends :
      (ev : InternalEvent) (s : Hubs driver)
      → HasReach driver bounded s
      → Comes s ev
      → Ends driver bounded (device_event driver ev s)
  unfolding device_event
  device_event-Ends _ s x (of_root status) = root_event-Ends driver bounded status s x
  device_event-Ends _ s x (of_hub p i a n) =
      reported-Ends driver bounded (handle_hub_packet driver p s)
        (handle_hub_packet-Keeps p s i a (record { reach = x; present = n }))
