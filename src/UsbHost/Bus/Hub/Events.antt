-- ===== src/UsbHost/Bus/Hub/Events.antt =====
-- cotton-usb-host/src/usb_bus.rs: the events of the root port keep the table of devices rooted.
use cotton.Prelude.{
  ℕ, zero, suc, ◌≡◌, refl, ◌==◌, inl, Bool, true, false, Option, none, some, arith,
}
use cotton.Prelude.Outcome.{Outcome, returns, panics}
use cotton.Prelude.Result.{Result, ok, err}
use cotton.UsbHost.Topology.{Topology, device_connect}
use cotton.UsbHost.Topology.Disconnect.{device_disconnect-Detaches}
use cotton.UsbHost.Topology.Rooted as Rooted
use cotton.UsbHost.Topology.Rooted.{Reach, Reach-Rooted, device_connect_root}
use cotton.UsbHost.HostController.{
  UsbError, UsbSpeed, DeviceStatus, present, absent, no_data, HostController,
}
use cotton.UsbHost.Wire.Descriptors.{hub_classcode, port_power}
use cotton.UsbHost.Bus.Device.{DeviceInfo, UnconfiguredDevice}
use cotton.UsbHost.Bus.Requests.{
  control, at_least, new_device, set_address, get_basic_configuration, configure, set_port_feature,
}
use cotton.UsbHost.Bus.Requests.Keeps.{
  IsBounded, Keeps, and_then-Keeps, at_least-Keeps, control-Keeps, set_address-Keeps,
  new_device-Keeps, get_basic_configuration-Keeps, configure-Keeps,
}
use cotton.UsbHost.Bus.Hub.{
  DeviceEvent, Hubs, beside, fill, fill_slot, free_slot, try_add, power_ports, new_hub, addressed,
  root_address, connected, root_present, reported, root_event,
}

module _ {H P : Type 0} (driver : HostController H P) (bounded : IsBounded driver) where
  -- The table of devices is one that a bus can come to.
  abbrev pub HasReach : Hubs driver → Type 0
  HasReach s = Reach s.0.topology

  abbrev pub Ends : Outcome (DeviceEvent × Hubs driver) → Type 0
  Ends panics = ⊥
  Ends (returns (ev, s)) = HasReach s

  beside-IsBounded : IsBounded (beside driver)
  beside-IsBounded = record { control_in = λ a z p buf s n. bounded.control_in a z p buf s.1 n }

  fill-Keeps :
      (i : ℕ) (r : Result UsbError P × Hubs driver)
      → HasReach r.1
      → Keeps HasReach (fill driver i r)
  fill-Keeps i (ok p, (s, h)) x = x
  fill-Keeps i (err e, s) x = x

  try_add-Keeps :
      (address endpoint size ms : ℕ) (s : Hubs driver)
      → HasReach s
      → Keeps HasReach (try_add driver address endpoint size ms s)
  unfolding try_add
  try_add-Keeps address endpoint size ms s x = slot (free_slot 0 s.0.pipes)
    where
      slot : (o : Option ℕ) → Keeps HasReach (fill_slot driver address endpoint size ms o s)
      slot none = x
      slot (some i) =
          fill-Keeps i ((beside driver).try_alloc_interrupt_pipe address endpoint size ms s) x

  set_port_feature-Keeps :
      (address port feature : ℕ) (s : Hubs driver)
      → HasReach s
      → Keeps HasReach (set_port_feature (beside driver) address port feature s)
  unfolding set_port_feature
  set_port_feature-Keeps address port feature s x =
      and_then-Keeps _ _ (control (beside driver) address 8 _ no_data s)
        (control-Keeps _ (beside driver) (λ a z p d h i. i) address 8 _ no_data s x) (λ r s x. x)

  power_ports-Keeps :
      (address port left : ℕ) (s : Hubs driver)
      → HasReach s
      → Keeps HasReach (power_ports driver address port left s)
  unfolding power_ports
  power_ports-Keeps address port zero s x = x
  power_ports-Keeps address port (suc left) s x =
      and_then-Keeps _ _ (set_port_feature (beside driver) address port port_power s)
        (set_port_feature-Keeps address port port_power s x)
        (λ r s x. power_ports-Keeps address (suc port) left s x)

  new_hub-Keeps :
      (device : UnconfiguredDevice) (s : Hubs driver)
      → HasReach s
      → Keeps HasReach (new_hub driver device s)
  unfolding new_hub
  new_hub-Keeps device s x =
      and_then-Keeps _ _ (get_basic_configuration (beside driver) device s)
        (get_basic_configuration-Keeps _ (beside driver) (λ a z p d h i. i) beside-IsBounded device
          s x)
        (λ bc s x.
          and_then-Keeps _ _ (configure (beside driver) device _ s)
            (configure-Keeps _ (beside driver) (λ a z p d h i. i) beside-IsBounded device _ s x)
            (λ d s x.
              and_then-Keeps _ _ (try_add driver _ _ _ 9 s) (try_add-Keeps _ _ _ 9 s x)
                (λ added s x.
                  and_then-Keeps _ _ (control (beside driver) _ _ _ _ s)
                    (control-Keeps _ (beside driver) (λ a z p d h i. i) _ _ _ _ s x)
                    (λ r s x.
                      and_then-Keeps _ _ (at_least (beside driver) 9 r s)
                        (at_least-Keeps _ (beside driver) 9 r s x)
                        (λ ds s x.
                          and_then-Keeps _ _ (power_ports driver _ 1 _ s)
                            (power_ports-Keeps _ 1 _ s x) (λ u s x. x))))))

  addressed-Keeps :
      (r : Option ℕ × Topology) (i : ℕ) (s : Hubs driver)
      → r.0 ≡ some i
      → Reach r.1
      → Keeps HasReach (addressed driver r s)
  addressed-Keeps (none, t) i s e x = absurd cc
  addressed-Keeps (some a, t) i s e x = x

  root_address-Keeps :
      (is_hub : Bool) (s : Hubs driver) → HasReach s → Keeps HasReach (root_address driver is_hub s)
  root_address-Keeps is_hub s x =
      let (i, e) = device_connect_root s.0.topology is_hub x in
      addressed-Keeps (device_connect s.0.topology 0 1 is_hub) i s e
        (Rooted.connected s.0.topology 0 1 is_hub x (inl (refl, refl)))

  pub connected-Keeps :
      (is_hub : Bool) (device : UnconfiguredDevice) (info : DeviceInfo) (s : Hubs driver)
      → HasReach s
      → Keeps HasReach (connected driver is_hub device info s)
  connected-Keeps true device info s x =
      and_then-Keeps _ _ (new_hub driver device s) (new_hub-Keeps device s x) (λ hub s x. x)
  connected-Keeps false device info s x = x

  root_present-Keeps :
      (speed : UsbSpeed) (s : Hubs driver)
      → HasReach s
      → Keeps HasReach (root_present driver speed s)
  unfolding root_present
  root_present-Keeps speed s x =
      and_then-Keeps _ _ (new_device (beside driver) speed _)
        (new_device-Keeps _ (beside driver) (λ a z p d h i. i) speed _ x)
        (λ r s x.
          and_then-Keeps _ _ (root_address driver _ s) (root_address-Keeps _ s x) (λ address s x.
            and_then-Keeps _ _ (set_address (beside driver) r.0 address s)
              (set_address-Keeps _ (beside driver) (λ a z p d h i. i) r.0 address s x)
              (λ device s x. connected-Keeps (r.1.class == hub_classcode) device r.1 s x)))

  pub reported-Ends :
      (o : Outcome (Result UsbError DeviceEvent × Hubs driver))
      → Keeps HasReach o
      → Ends (reported o)
  reported-Ends (returns (ok ev, s)) x = x
  reported-Ends (returns (err e, s)) x = x
  reported-Ends panics x = elim x [ ]

  -- From every state whose table of devices a bus can come to, and over a controller that never claims
  -- more bytes of a control transfer than the buffer holds, an event of the root port never panics: a
  -- device that appears there is always given an address, and the table stays one a bus can come to.
  pub root_event-Ends :
      (status : DeviceStatus) (s : Hubs driver) → HasReach s → Ends (root_event driver status s)
  unfolding root_event
  root_event-Ends (present speed) s x =
      reported-Ends (root_present driver speed s) (root_present-Keeps speed s x)
  root_event-Ends absent s x =
      let d =
        device_disconnect-Detaches s.0.topology (Reach-Rooted s.0.topology x).0 0 1 (omega arith)
          (omega arith) in
      rw d.ends (Rooted.disconnected s.0.topology d.left 0 1 d.gone x d.ends)
