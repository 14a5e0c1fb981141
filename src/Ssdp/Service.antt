-- ===== src/Ssdp/Service.antt =====
-- cotton-ssdp/src/service.rs: the engine with its two sockets. The calls of
-- cotton-ssdp/src/async_service.rs do the same under a lock, and network_event is one of those only.
pub mod Start
pub mod Running
pub mod Lifetime
mod Tests
use cotton.Prelude.{ℕ, Option, none, some, List, [], ◌∷◌}
use cotton.Prelude.Bytes.{Bytes}
use cotton.Prelude.Outcome.{Outcome, returns, panics, ◌>>=◌}
use cotton.Prelude.Result.{Result, ok, err}
use cotton.Netif.{NetworkEvent}
use cotton.Ssdp.RefreshTimer.{Timebase}
use cotton.Ssdp.Udp.{Addresses, TargetedSend, Multicast}
use cotton.Ssdp.Engine as Engine
use cotton.Ssdp.Engine.{Advertisement, Engine}
use cotton.Ssdp.Engine.Timeouts.{handle_timeout, poll_timeout}
use cotton.Ssdp.Engine.Events.{Notification, on_data}
use cotton.Ssdp.Engine.Network.{on_network_event}

-- `K` is the state of the search socket, which sends, and `M` that of the multicast socket, which is a
-- member of groups; a callback acts on the state `W`.
pub record Service (A S I CB K M W : Type 0) : Type 0 where
  pub engine : Engine A S I CB
  pub search_socket : K
  pub multicast_socket : M
  pub subscribers : W

-- What one `receive_to` yields, and the time after it.
pub record Packet (A S I : Type 0) : Type 0 where
  pub contents : Bytes
  pub wasto : A
  pub wasfrom : S
  pub now : I

-- The calls of a service. A socket that is ready has packets until `receive_to` fails.
pub data Call (A S I CB : Type 0) : Type 0 where
  network_event : NetworkEvent A → Call A S I CB
  subscribe : (notification_type : Bytes) (callback : CB) → Call A S I CB
  advertise : (unique_service_name : Bytes) (advertisement : Advertisement) → Call A S I CB
  deadvertise : (unique_service_name : Bytes) → Call A S I CB
  multicast_ready : List (Packet A S I) → Call A S I CB
  search_ready : List (Packet A S I) → Call A S I CB
  wakeup : I → Call A S I CB

module _ {A S I CB K M W : Type 0} where
  abbrev pub heard : Service A S I CB K M W → Engine A S I CB × W → Service A S I CB K M W
  heard s (e, w) = record s { engine = e; subscribers = w }

  abbrev pub sent : Service A S I CB K M W → Engine A S I CB × K → Service A S I CB K M W
  sent s (e, k) = record s { engine = e; search_socket = k }

module _ {A S I CB K M W E : Type 0} (addrs : Addresses A S) (socket : TargetedSend A S K)
    (net : Multicast A E M) where
  -- The result of a network event, an error perhaps, does not change what has become of the engine.
  unfoldable pub on_event : NetworkEvent A → Service A S I CB K M W → Service A S I CB K M W
  on_event event s =
      let r = on_network_event addrs socket net event s.engine s.search_socket s.multicast_socket in
      record s { engine = r.1; search_socket = r.2; multicast_socket = r.3 }

  -- `for netif in interfaces`: errors are ignored.
  unfoldable pub on_events : List (NetworkEvent A) → Service A S I CB K M W → Service A S I CB K M W
  on_events [] s = s
  on_events (event ∷ events) s = on_events events (on_event event s)

module _ {A S I CB K M W : Type 0} (addrs : Addresses A S) (base : Timebase I)
    (on_notification : CB → Notification → W → W) where
  -- `while let Ok((n, wasto, wasfrom)) = socket.receive_to(&mut buf)`
  unfoldable pub data_ready :
      List (Packet A S I) → Service A S I CB K M W → Outcome (Service A S I CB K M W)
  data_ready [] s = returns s
  data_ready (p ∷ ps) s =
      on_data addrs base on_notification s.engine p.contents p.wasto p.wasfrom p.now s.subscribers
      >>= λ r. data_ready ps (heard s r)

module _ {A S I CB K M W E : Type 0} (addrs : Addresses A S) (base : Timebase I)
    (on_notification : CB → Notification → W → W) (socket : TargetedSend A S K)
    (net : Multicast A E M) where
  unfoldable pub call : Call A S I CB → Service A S I CB K M W → Outcome (Service A S I CB K M W)
  call (network_event event) s = returns (on_event addrs socket net event s)
  call (subscribe notification_type callback) s =
      returns
        (sent s (Engine.subscribe addrs socket s.engine notification_type callback s.search_socket))
  call (advertise unique_service_name advertisement) s = returns (
      sent s
        (Engine.advertise addrs socket s.engine unique_service_name advertisement s.search_socket))
  call (deadvertise unique_service_name) s =
      returns
        (sent s (Engine.deadvertise addrs socket s.engine unique_service_name s.search_socket))
  call (multicast_ready packets) s = data_ready addrs base on_notification packets s
  call (search_ready packets) s = data_ready addrs base on_notification packets s
  call (wakeup now) s =
      returns (sent s (handle_timeout base addrs socket s.engine s.search_socket now))

  -- One call after the other.
  unfoldable pub calls :
      List (Call A S I CB) → Service A S I CB K M W → Outcome (Service A S I CB K M W)
  calls [] s = returns s
  calls (c ∷ cs) s = call c s >>= calls cs
