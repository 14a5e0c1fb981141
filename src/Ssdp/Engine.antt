-- ===== src/Ssdp/Engine.antt =====
-- cotton-ssdp/src/engine.rs: the state of the engine, and what it sends.
pub mod Target
pub mod Url
pub mod Timeouts
pub mod Events
pub mod Network
pub mod Hearing
pub mod Reaching
pub mod Waking
pub mod Acting
pub mod Ips
pub mod Valid
pub mod Removal
pub mod Hosts
pub mod Discovery
pub mod Samples
pub mod Salvo
mod Tests
use cotton.Prelude.{ℕ, Bool, false, ◌||◌, Option, none, some, List, [], ◌∷◌, ◌++◌, if◌then◌else◌}
use cotton.Prelude.Bytes.{Bytes, codes}
use cotton.Ssdp.Text.{same}
use cotton.Ssdp.BTreeMap.{text_less, values, get, insert, remove}
use cotton.Ssdp.Message.{build_search, build_response, build_notify, build_byebye}
use cotton.Ssdp.RefreshTimer as RefreshTimer
use cotton.Ssdp.RefreshTimer.{Timebase, RefreshTimer}
use cotton.Ssdp.Udp.{Addresses, TargetedSend}
use Url.{rewrite_host}

abbrev pub max_packet_size : ℕ
max_packet_size = 512

pub record Interface (A : Type 0) : Type 0 where
  pub ips : List A
  pub up : Bool

pub record Advertisement : Type 0 where
  pub notification_type : Bytes
  pub location : Bytes

pub record ActiveSearch (CB : Type 0) : Type 0 where
  pub notification_type : Bytes
  pub callback : CB

pub data ResponseNeeded (A S I : Type 0) : Type 0 where
  no_response : ResponseNeeded A S I
  multicast : I → ResponseNeeded A S I
  unicast : (at : I) (wasfrom : S) (wasto : A) (response_type : Bytes) → ResponseNeeded A S I

pub record ActiveAdvertisement (A S I : Type 0) : Type 0 where
  pub advertisement : Advertisement
  pub response_needed : ResponseNeeded A S I

-- The searches are never removed, so the slots of their map are a list in the order of insertion.
pub record Engine (A S I CB : Type 0) : Type 0 where
  pub interfaces : List (ℕ × Interface A)
  pub active_searches : List (ActiveSearch CB)
  pub advertisements : List (Bytes × ActiveAdvertisement A S I)
  pub refresh_timer : RefreshTimer I
  pub random_seed : ℕ

unfoldable pub new : {A S I CB : Type 0} → Timebase I → ℕ → I → Engine A S I CB
new base random_seed now = record {
  interfaces = [];
  active_searches = [];
  advertisements = [];
  refresh_timer = RefreshTimer.new base random_seed now;
  random_seed = random_seed;
}

-- `for x in xs`, over the state of the socket
abbrev pub for_each : {X K : Type 0} → List X → (X → K → K) → K → K
for_each [] f k = k
for_each (x ∷ xs) f k = for_each xs f (f x k)

abbrev pub any_all : {CB : Type 0} → List (ActiveSearch CB) → Bool
any_all [] = false
any_all (s ∷ ss) = same s.notification_type (codes "ssdp:all") || any_all ss

module _ {A S K : Type 0} (addrs : Addresses A S) (socket : TargetedSend A S K) where
  -- `for interface in interfaces.values() { if interface.up { for ip in &interface.ips { … } } }`
  abbrev pub on_all : List (ℕ × Interface A) → (A → K → K) → K → K
  on_all interfaces f = for_each (values interfaces) (λ i k. if i.up then for_each i.ips f k else k)

  unfoldable pub notify_on : Advertisement → Bytes → A → K → K
  notify_on advertisement unique_service_name source =
      let url = rewrite_host advertisement.location (addrs.to_string source) in
      socket.send_with max_packet_size addrs.group_socket source
        (λ b. build_notify b advertisement.notification_type unique_service_name url)

  unfoldable pub notify_on_all : Advertisement → Bytes → List (ℕ × Interface A) → K → K
  notify_on_all advertisement unique_service_name interfaces =
      on_all interfaces (notify_on advertisement unique_service_name)

  unfoldable pub search_on : Bytes → A → K → K
  search_on search_type source =
      socket.send_with max_packet_size addrs.group_socket source (λ b. build_search b search_type)

  unfoldable pub search_on_all : List (ℕ × Interface A) → Bytes → K → K
  search_on_all interfaces search_type = on_all interfaces (search_on search_type)

  -- The location of the response has the address that the search came to.
  unfoldable pub send_response : A → S → Bytes → Bytes → Bytes → K → K
  send_response wasto wasfrom service_name response_type location =
      let url = rewrite_host location (addrs.to_string wasto) in
      socket.send_with max_packet_size wasfrom wasto
        (λ b. build_response b response_type service_name url)

  -- The first argument is named a service name and is handed on as the notification type; the callers
  -- give it the notification type.
  unfoldable pub byebye_on : Bytes → Bytes → A → K → K
  byebye_on unique_service_name notification_type source =
      socket.send_with max_packet_size addrs.group_socket source
        (λ b. build_byebye b unique_service_name notification_type)

  unfoldable pub byebye_on_all : List (ℕ × Interface A) → Bytes → Bytes → K → K
  byebye_on_all interfaces notification_type unique_service_name =
      on_all interfaces (byebye_on notification_type unique_service_name)

  -- The searches on one address, or one for everything if anybody searches for that.
  abbrev pub searches_on : {CB : Type 0} → List (ActiveSearch CB) → A → K → K
  searches_on searches ip =
      if any_all searches
      then search_on (codes "ssdp:all") ip
      else for_each searches (λ s. search_on s.notification_type ip)

  module _ {I CB : Type 0} where
    unfoldable pub send_all : Engine A S I CB → List A → K → K
    send_all e ips = for_each ips (λ ip k.
        for_each e.advertisements (λ (key, value). notify_on value.advertisement key ip)
          (searches_on e.active_searches ip k))

    unfoldable pub refresh : Engine A S I CB → K → K
    refresh e k =
        let k' =
          for_each e.advertisements
            (λ (key, value). notify_on_all value.advertisement key e.interfaces) k in
        if any_all e.active_searches
        then search_on_all e.interfaces (codes "ssdp:all") k'
        else for_each e.active_searches (λ s. search_on_all e.interfaces s.notification_type) k'

    unfoldable pub subscribe : Engine A S I CB → Bytes → CB → K → Engine A S I CB × K
    subscribe e notification_type callback k = (
      record e {
        active_searches =
            e.active_searches
            ++ record { notification_type = notification_type; callback = callback } ∷ [];
      },
      search_on_all e.interfaces notification_type k,
    )

    unfoldable pub advertise : Engine A S I CB → Bytes → Advertisement → K → Engine A S I CB × K
    advertise e unique_service_name advertisement k = (
      record e {
        advertisements =
            insert text_less unique_service_name
              (record { advertisement = advertisement; response_needed = no_response })
              e.advertisements;
      },
      notify_on_all advertisement unique_service_name e.interfaces k,
    )

    abbrev pub withdraw :
        Engine A S I CB → Bytes → Option (ActiveAdvertisement A S I) → K → Engine A S I CB × K
    withdraw e unique_service_name none k = (e, k)
    withdraw e unique_service_name (some a) k = (
      record e { advertisements = remove text_less unique_service_name e.advertisements },
      byebye_on_all e.interfaces a.advertisement.notification_type unique_service_name k,
    )

    unfoldable pub deadvertise : Engine A S I CB → Bytes → K → Engine A S I CB × K
    deadvertise e unique_service_name =
        withdraw e unique_service_name (get text_less unique_service_name e.advertisements)
