-- ===== src/Ssdp/Service/Start.antt =====
-- cotton-ssdp/src/service.rs: how a service is made.
use cotton.Prelude.{ℕ, List}
use cotton.Prelude.Result.{Result, ok, ◌>>=◌, ◌>>◌}
use cotton.Netif.{NetworkEvent}
use cotton.Ssdp.RefreshTimer.{Timebase}
use cotton.Ssdp.Udp.{Addresses, TargetedSend, Multicast}
use cotton.Ssdp.Engine as Engine
use cotton.Ssdp.Service.{Service, on_events}

-- The operating system's part of making a service: a socket on a port, and the registry of mio.
pub record Sockets (F K M : Type 0) : Type 0 where
  pub multicast_on : ℕ → Result F M
  pub search_on : ℕ → Result F K
  pub register_multicast : M → Result F (Unit {0})
  pub register_search : K → Result F (Unit {0})

module _ {A S I K M E F : Type 0} (addrs : Addresses A S) (base : Timebase I)
    (socket : TargetedSend A S K) (net : Multicast A E M) (sockets : Sockets F K M) where
  -- The random number and the time are those that the service finds.
  unfoldable pub new_inner :
      {CB W : Type 0} → List (NetworkEvent A) → ℕ → I → W → Result F (Service A S I CB K M W)
  new_inner interfaces random_seed now w = do
    multicast_socket ← sockets.multicast_on 1900
    search_socket ← sockets.search_on 0
    let s = on_events addrs socket net interfaces (record {
      engine = Engine.new base random_seed now;
      search_socket = search_socket;
      multicast_socket = multicast_socket;
      subscribers = w;
    })
    sockets.register_multicast s.multicast_socket
    sockets.register_search s.search_socket
    ok s
