-- ===== src/Ssdp/Service/Lifetime.antt =====
-- cotton-ssdp/src/service.rs: a service that has just been made, and its calls.
use cotton.Prelude.{ℕ, List}
use cotton.Prelude.Result.{Result, ok, err, ◌>>=◌, ◌>>◌}
use cotton.Netif.{NetworkEvent}
use cotton.Ssdp.BTreeMap.Laws as Map
use cotton.Ssdp.RefreshTimer.{Timebase}
use cotton.Ssdp.Udp.{Addresses, TargetedSend, Multicast}
use cotton.Ssdp.Engine as Engine
use cotton.Ssdp.Engine.Events.{Notification}
use cotton.Ssdp.Engine.Ips.{IsEq}
use cotton.Ssdp.Engine.Valid.{IsEngine}
use cotton.Ssdp.Service.{Service, Call, calls, on_events}
use cotton.Ssdp.Service.Start.{Sockets, new_inner}
use cotton.Ssdp.Service.Running.{AreCalm, Ends, calls-Ends, on_events-IsEngine}

module _ {A S I CB K M W E F : Type 0} (addrs : Addresses A S) (eq : IsEq addrs.same_ip)
    (base : Timebase I) (on_notification : CB → Notification → W → W) (socket : TargetedSend A S K)
    (net : Multicast A E M) (sockets : Sockets F K M) where
  -- A service that could not be made has no calls.
  abbrev pub Runs : List (Call A S I CB) → Result F (Service A S I CB K M W) → Type 0
  Runs cs (err e) = Unit {0}
  Runs cs (ok s) =
      Ends addrs eq base on_notification socket net
        (calls addrs base on_notification socket net cs s)

  register-Runs :
      {cs : List (Call A S I CB)} (s : Service A S I CB K M W) (r q : Result F (Unit {0}))
      → AreCalm cs
      → IsEngine addrs s.engine
      → Runs cs (r >> (q >> ok s))
  register-Runs s (err e) q c x = tt
  register-Runs s (ok u) (err e) c x = tt
  register-Runs s (ok u) (ok v) c x = calls-Ends addrs eq base on_notification socket net s c x

  abbrev started : List (NetworkEvent A) → ℕ → I → W → M → K → Service A S I CB K M W
  started interfaces random_seed now w m k = on_events addrs socket net interfaces (record {
    engine = Engine.new base random_seed now;
    search_socket = k;
    multicast_socket = m;
    subscribers = w;
  })

  started-IsEngine :
      (interfaces : List (NetworkEvent A)) (random_seed : ℕ) (now : I) (w : W) (m : M) (k : K)
      → IsEngine addrs (started interfaces random_seed now w m k).engine
  unfolding Engine.new
  started-IsEngine interfaces random_seed now w m k =
      on_events-IsEngine addrs eq base on_notification socket net interfaces _
        (record { each = Map.empty })

  opened-Runs :
      {cs : List (Call A S I CB)} (interfaces : List (NetworkEvent A)) (random_seed : ℕ) (now : I)
      (w : W) (r : Result F M) (q : Result F K)
      → AreCalm cs
      → Runs cs (
          r >>= λ m. q >>= λ k.
          (sockets.register_multicast (started interfaces random_seed now w m k).multicast_socket
            >> (sockets.register_search (started interfaces random_seed now w m k).search_socket
                >> ok (started interfaces random_seed now w m k))))
  opened-Runs interfaces random_seed now w (err e) q c = tt
  opened-Runs interfaces random_seed now w (ok m) (err e) c = tt
  opened-Runs interfaces random_seed now w (ok m) (ok k) c =
      register-Runs (started interfaces random_seed now w m k) _ _ c
        (started-IsEngine interfaces random_seed now w m k)

  -- If a service can be made, any calls after that return, one after the other, when no packet among
  -- them is a search that waits 0 s; and then each interface has addresses of IPv4 only and none of
  -- them twice.
  pub new_inner-calls :
      {cs : List (Call A S I CB)} (interfaces : List (NetworkEvent A)) (random_seed : ℕ) (now : I)
      (w : W)
      → AreCalm cs
      → Runs cs (new_inner addrs base socket net sockets interfaces random_seed now w)
  unfolding new_inner
  new_inner-calls interfaces random_seed now w c =
      opened-Runs interfaces random_seed now w (sockets.multicast_on 1900) (sockets.search_on 0) c
