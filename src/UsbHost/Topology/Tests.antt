-- ===== src/UsbHost/Topology/Tests.antt =====
-- cotton-usb-host/src/topology.rs: a bus with two hubs.
use cotton.Prelude.{ℕ, ◌≡◌, ◌≢◌, refl, true, false, some, inl, inr, arith}
use cotton.UsbHost.Topology.Rooted.{Reach, started, connected, device_connect_root}
use cotton.UsbHost.Topology.{
  Topology, new, device_connect, device_disconnect, position, first_free, last_free, is_present,
  settle, sweep, visit,
}
use cotton.UsbHost.Topology.Shape.{at, IsValid, new-IsValid}
use cotton.UsbHost.Topology.Connect.{Connects, device_connect-Connects, device_connect-IsValid}
use cotton.UsbHost.Topology.Disconnect.{Detaches, device_disconnect-Detaches}

-- A hub on the root port, a hub on its port 2, and a device on port 3 of that.
abbrev one_hub : Topology
one_hub = (device_connect new 0 1 true).1

abbrev two_hubs : Topology
two_hubs = (device_connect one_hub 1 2 true).1

abbrev bus : Topology
bus = (device_connect two_hubs 2 3 false).1

addresses :
    ((device_connect new 0 1 true).0 ≡ some 1)
    × ((device_connect one_hub 1 2 true).0 ≡ some 2)
    × ((device_connect two_hubs 2 3 false).0 ≡ some 31)
unfolding device_connect position first_free last_free is_present new
addresses = (refl, refl, refl)

bus-IsValid : IsValid bus
bus-IsValid =
    device_connect-IsValid two_hubs 2 3 false
      (device_connect-IsValid one_hub 1 2 true (device_connect-IsValid new 0 1 true new-IsValid))

-- Port 2 of the first hub goes away with all that hangs on it.
unplugged : device_disconnect bus 1 2 ≡ some (record { bits = 0x8000_0004 }, one_hub)
unfolding device_disconnect settle sweep visit device_connect position first_free last_free
    is_present new
unplugged = refl

device_connect-Connects_example : Connects bus 2 4 false (device_connect bus 2 4 false)
device_connect-Connects_example = device_connect-Connects bus bus-IsValid 2 4 false

device_connect-IsValid_example : IsValid (device_connect bus 2 4 false).1
device_connect-IsValid_example = device_connect-IsValid bus 2 4 false bus-IsValid

device_disconnect-Detaches_example : Detaches bus 1 2 (device_disconnect bus 1 2)
device_disconnect-Detaches_example =
    device_disconnect-Detaches bus bus-IsValid 1 2 (omega arith) (omega arith)

first_hub : at one_hub 1 ≢ 0
unfolding device_connect position first_free last_free is_present new
first_hub e = omega arith

one_hub-Reach : Reach one_hub
one_hub-Reach = connected new 0 1 true started (inl (refl, refl))

device_connect_root_example :
    (i : ℕ) × ((device_connect (device_connect one_hub 1 2 false).1 0 1 true).0 ≡ some i)
device_connect_root_example =
    device_connect_root (device_connect one_hub 1 2 false).1 true
      (connected one_hub 1 2 false one_hub-Reach (inr first_hub))
