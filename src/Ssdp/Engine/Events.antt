-- ===== src/Ssdp/Engine/Events.antt =====
-- cotton-ssdp/src/engine.rs: packets that come in, and changes of the network. Notification is that of
-- cotton-ssdp/src/event.rs.
use cotton.Prelude.{ℕ, ◌+◌, ◌*◌, ◌%◌, min, List, [], ◌∷◌, ◌==◌, if◌then◌else◌}
use cotton.Prelude.Bytes.{Bytes, codes}
use cotton.Prelude.Outcome.{Outcome, returns, panics}
use cotton.Prelude.Result.{Result, ok, err}
use cotton.Ssdp.Text.{same}
use cotton.Ssdp.Message as Message
use cotton.Ssdp.Message.{Message, parse}
use cotton.Ssdp.RefreshTimer.{Timebase}
use cotton.Ssdp.Udp.{Addresses}
use cotton.Ssdp.Engine.{
  ActiveSearch, ResponseNeeded, no_response, multicast, unicast, ActiveAdvertisement, Engine,
}
use cotton.Ssdp.Engine.Target.{target_match}

pub data Notification : Type 0 where
  alive : (notification_type unique_service_name location : Bytes) → Notification
  bye_bye : (notification_type unique_service_name : Bytes) → Notification

abbrev pub type_of : Notification → Bytes
type_of (alive notification_type unique_service_name location) = notification_type
type_of (bye_bye notification_type unique_service_name) = notification_type

-- `Callback::on_notification` acts on the state `W` of the subscribers.
module _ {CB W : Type 0} (on_notification : CB → Notification → W → W) where
  unfoldable pub call_subscribers : List (ActiveSearch CB) → Notification → W → W
  call_subscribers [] n w = w
  call_subscribers (s ∷ ss) n w =
      call_subscribers ss n
        (if target_match s.notification_type (type_of n) then on_notification s.callback n w else w)

module _ {A S I : Type 0} (addrs : Addresses A S) where
  -- What a matching search makes of the response that is owed: a second searcher turns an answer to
  -- one into an answer to all.
  abbrev pub owed : Bytes → Bytes → I → S → A → ResponseNeeded A S I → ResponseNeeded A S I
  owed search_target notification_type reply_at wasfrom wasto no_response =
      unicast reply_at wasfrom wasto
        (if same search_target (codes "ssdp:all") then notification_type else search_target)
  owed search_target notification_type reply_at wasfrom wasto (unicast at previous_from to type) =
      if addrs.same_socket wasfrom previous_from
      then unicast at previous_from to type
      else multicast at
  owed search_target notification_type reply_at wasfrom wasto (multicast at) = multicast at

  unfoldable pub schedule :
      Bytes → I → S → A → ActiveAdvertisement A S I → ActiveAdvertisement A S I
  schedule search_target reply_at wasfrom wasto value =
      if target_match search_target value.advertisement.notification_type
      then record value {
        response_needed =
            owed search_target value.advertisement.notification_type reply_at wasfrom wasto
              value.response_needed;
      }
      else value

  unfoldable pub schedule_all :
      Bytes
      → I
      → S
      → A
      → List (Bytes × ActiveAdvertisement A S I)
      → List (Bytes × ActiveAdvertisement A S I)
  schedule_all search_target reply_at wasfrom wasto [] = []
  schedule_all search_target reply_at wasfrom wasto ((key, value) ∷ rest) =
      (key, schedule search_target reply_at wasfrom wasto value)
      ∷ schedule_all search_target reply_at wasfrom wasto rest

-- `clamp(0, 5000)`; a remainder by 0 panics.
unfoldable pub search_delay : ℕ → ℕ → Outcome ℕ
search_delay random_seed maximum_wait_sec =
    let max_delay_ms = min (maximum_wait_sec * 1000) 5000 in
    if max_delay_ms == 0 then panics else returns (random_seed % max_delay_ms + 10)

module _ {A S I CB W : Type 0} (addrs : Addresses A S) (base : Timebase I)
    (on_notification : CB → Notification → W → W) where
  abbrev searched :
      Engine A S I CB → Bytes → A → S → I → W → Outcome ℕ → Outcome (Engine A S I CB × W)
  searched e search_target wasto wasfrom now w panics = panics
  searched e search_target wasto wasfrom now w (returns delay_ms) = returns (
    record e {
      advertisements =
          schedule_all addrs search_target (base.add_millis now delay_ms) wasfrom wasto
            e.advertisements;
    },
    w,
  )

  abbrev pub on_message : Engine A S I CB → A → S → I → W → Message → Outcome (Engine A S I CB × W)
  on_message e wasto wasfrom now w (Message.notify_alive nt usn location) =
      returns (e, call_subscribers on_notification e.active_searches (alive nt usn location) w)
  on_message e wasto wasfrom now w (Message.notify_bye_bye nt usn) =
      returns (e, call_subscribers on_notification e.active_searches (bye_bye nt usn) w)
  on_message e wasto wasfrom now w (Message.search search_target maximum_wait_sec) =
      searched e search_target wasto wasfrom now w (search_delay e.random_seed maximum_wait_sec)
  on_message e wasto wasfrom now w (Message.response st usn location) =
      returns (e, call_subscribers on_notification e.active_searches (alive st usn location) w)

  abbrev pub on_parsed :
      Engine A S I CB → A → S → I → W → Result Message.Error Message → Outcome (Engine A S I CB × W)
  on_parsed e wasto wasfrom now w (ok m) = on_message e wasto wasfrom now w m
  on_parsed e wasto wasfrom now w (err x) = returns (e, w)

  unfoldable pub on_data : Engine A S I CB → Bytes → A → S → I → W → Outcome (Engine A S I CB × W)
  on_data e buf wasto wasfrom now w = on_parsed e wasto wasfrom now w (parse buf)
