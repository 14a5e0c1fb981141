-- ===== src/Ssdp/Service/Running.antt =====
-- cotton-ssdp/src/service.rs: a service from its start through any calls.
use cotton.Prelude.{◌≡◌, ◌≢◌, refl, Option, none, some, List, [], ◌∷◌}
use cotton.Prelude.Bytes.{Bytes}
use cotton.Prelude.Outcome.{Outcome, returns, panics, ◌>>=◌}
use cotton.Prelude.Result.{Result, ok}
use cotton.Netif.{NetworkEvent}
use cotton.Ssdp.BTreeMap.{text_less, get}
use cotton.Ssdp.Message.{Message, Error, parse}
use cotton.Ssdp.RefreshTimer.{Timebase}
use cotton.Ssdp.Udp.{Addresses, TargetedSend, Multicast}
use cotton.Ssdp.Engine as Engine
use cotton.Ssdp.Engine.{Engine, withdraw, Advertisement, ActiveAdvertisement}
use cotton.Ssdp.Engine.Events.{Notification}
use cotton.Ssdp.Engine.Hearing.{Hears, ignored, told, scheduled, search_panics, on_data-Hears}
use cotton.Ssdp.Engine.Ips.{IsEq}
use cotton.Ssdp.Engine.Valid.{IsEngine, on_network_event-IsEngine}
use cotton.Ssdp.Engine.Timeouts.{handle_timeout}
use cotton.Ssdp.Service.{
  Service, Packet, Call, network_event, subscribe, advertise, deadvertise, multicast_ready,
  search_ready, wakeup, on_event, on_events, heard, data_ready, call, calls,
}

-- Packets of which none is a search that waits 0 s.
pub data IsCalm {A S I : Type 0} : List (Packet A S I) → Type 0 where
  no_packets : IsCalm []
  calm :
      {p : Packet A S I} {ps : List (Packet A S I)}
      → ((st : Bytes) → parse p.contents ≢ ok (Message.search st 0))
      → IsCalm ps
      → IsCalm (p ∷ ps)

-- Calls of which none has such a search.
pub data AreCalm {A S I CB : Type 0} : List (Call A S I CB) → Type 0 where
  no_calls : AreCalm []
  of_network :
      {ev : NetworkEvent A} {cs : List (Call A S I CB)}
      → AreCalm cs
      → AreCalm (network_event ev ∷ cs)
  of_subscriber :
      {nt : Bytes} {callback : CB} {cs : List (Call A S I CB)}
      → AreCalm cs
      → AreCalm (subscribe nt callback ∷ cs)
  of_advertiser :
      {usn : Bytes} {ad : Advertisement} {cs : List (Call A S I CB)}
      → AreCalm cs
      → AreCalm (advertise usn ad ∷ cs)
  of_withdrawal :
      {usn : Bytes} {cs : List (Call A S I CB)} → AreCalm cs → AreCalm (deadvertise usn ∷ cs)
  of_multicast :
      {ps : List (Packet A S I)} {cs : List (Call A S I CB)}
      → IsCalm ps
      → AreCalm cs
      → AreCalm (multicast_ready ps ∷ cs)
  of_search :
      {ps : List (Packet A S I)} {cs : List (Call A S I CB)}
      → IsCalm ps
      → AreCalm cs
      → AreCalm (search_ready ps ∷ cs)
  of_timer : {now : I} {cs : List (Call A S I CB)} → AreCalm cs → AreCalm (wakeup now ∷ cs)

module _ {A S I CB K M W E : Type 0} (addrs : Addresses A S) (eq : IsEq addrs.same_ip)
    (base : Timebase I) (on_notification : CB → Notification → W → W) (socket : TargetedSend A S K)
    (net : Multicast A E M) where
  -- The code has returned, and left the addresses of the interfaces as they have to be.
  abbrev pub Ends : Outcome (Service A S I CB K M W) → Type 0
  Ends panics = ⊥
  Ends (returns s) = IsEngine addrs s.engine

  and_then-Ends :
      (o : Outcome (Service A S I CB K M W))
      (f : Service A S I CB K M W → Outcome (Service A S I CB K M W))
      → Ends o
      → ((s : Service A S I CB K M W) → IsEngine addrs s.engine → Ends (f s))
      → Ends (o >>= f)
  and_then-Ends (returns s) f x k = k s x
  and_then-Ends panics f x k = elim x [ ]

  heard-Ends :
      (s : Service A S I CB K M W) (p : Packet A S I)
      (f : Engine A S I CB × W → Outcome (Service A S I CB K M W)) {r : Result Error Message}
      {o : Outcome (Engine A S I CB × W)}
      → Hears addrs base on_notification s.engine p.wasto p.wasfrom p.now s.subscribers r o
      → ((st : Bytes) → r ≢ ok (Message.search st 0))
      → ((e : Engine A S I CB) (w : W) → e.interfaces ≡ s.engine.interfaces → Ends (f (e, w)))
      → Ends (o >>= f)
  heard-Ends s p f (ignored x) c k = k _ _ refl
  heard-Ends s p f (told m type n after e t) c k = k _ _ refl
  heard-Ends s p f (scheduled st mx d ads a b o) c k = k _ _ refl
  heard-Ends s p f (search_panics st) c k = absurd (c st refl)

  same_interfaces :
      (e e' : Engine A S I CB) → e'.interfaces ≡ e.interfaces → IsEngine addrs e → IsEngine addrs e'
  same_interfaces e e' q x = record { each = rw q x.each }

  data_ready-Ends :
      {ps : List (Packet A S I)} (s : Service A S I CB K M W)
      → IsCalm ps
      → IsEngine addrs s.engine
      → Ends (data_ready addrs base on_notification ps s)
  unfolding data_ready
  data_ready-Ends s no_packets x = x
  data_ready-Ends {ps = p ∷ ps} s (calm c more) x =
      heard-Ends s p _
        (on_data-Hears addrs base on_notification s.engine p.contents p.wasto p.wasfrom p.now
          s.subscribers)
        c (λ e w q. data_ready-Ends (heard s (e, w)) more (same_interfaces s.engine e q x))

  on_event-IsEngine :
      (ev : NetworkEvent A) (s : Service A S I CB K M W)
      → IsEngine addrs s.engine
      → IsEngine addrs (on_event addrs socket net ev s).engine
  unfolding on_event
  on_event-IsEngine ev s x =
      on_network_event-IsEngine addrs eq socket net ev s.engine s.search_socket s.multicast_socket x

  withdrawn-IsEngine :
      (e : Engine A S I CB) (usn : Bytes) (r : Option (ActiveAdvertisement A S I)) (k : K)
      → IsEngine addrs e
      → IsEngine addrs (withdraw addrs socket e usn r k).0
  withdrawn-IsEngine e usn none k x = x
  withdrawn-IsEngine e usn (some a) k x = record { each = x.each }

  pub calls-Ends :
      {cs : List (Call A S I CB)} (s : Service A S I CB K M W)
      → AreCalm cs
      → IsEngine addrs s.engine
      → Ends (calls addrs base on_notification socket net cs s)
  unfolding calls call Engine.subscribe Engine.advertise Engine.deadvertise handle_timeout
  calls-Ends s no_calls x = x
  calls-Ends s (of_network more) x = calls-Ends _ more (on_event-IsEngine _ s x)
  calls-Ends s (of_subscriber more) x = calls-Ends _ more (record { each = x.each })
  calls-Ends s (of_advertiser more) x = calls-Ends _ more (record { each = x.each })
  calls-Ends s (of_withdrawal more) x =
      calls-Ends _ more
        (withdrawn-IsEngine s.engine _ (get text_less _ s.engine.advertisements) s.search_socket x)
  calls-Ends s (of_multicast c more) x =
      and_then-Ends _ _ (data_ready-Ends s c x) (λ s y. calls-Ends s more y)
  calls-Ends s (of_search c more) x =
      and_then-Ends _ _ (data_ready-Ends s c x) (λ s y. calls-Ends s more y)
  calls-Ends s (of_timer more) x = calls-Ends _ more (record { each = x.each })

  pub on_events-IsEngine :
      (events : List (NetworkEvent A)) (s : Service A S I CB K M W)
      → IsEngine addrs s.engine
      → IsEngine addrs (on_events addrs socket net events s).engine
  unfolding on_events
  on_events-IsEngine [] s x = x
  on_events-IsEngine (ev ∷ events) s x = on_events-IsEngine events _ (on_event-IsEngine ev s x)
