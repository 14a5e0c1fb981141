-- ===== src/Ssdp/Engine/Tests.antt =====
-- cotton-ssdp/src/engine.rs on concrete inputs.
use cotton.Prelude.{ℕ, ◌≡◌, refl, true, [], ◌∷◌, ◌++◌, arith}
use cotton.Prelude.Bytes.{Bytes, codes}
use cotton.Prelude.Outcome.{panics}
use cotton.Netif.{new_addr, del_addr}
use cotton.Ssdp.Text.{
  is_utf8, lines, split_once, to_upper, trim, trim_start, trim_end, parse_below, find,
}
use cotton.Ssdp.BTreeMap.{get, insert}
use cotton.Ssdp.BTreeMap.Laws as Map
use cotton.Ssdp.Message.{parse, message_of, collect, build_search}
use cotton.Ssdp.Message as Message
use cotton.Ssdp.RefreshTimer.{next_refresh}
use cotton.Ssdp.Engine.{
  refresh, Advertisement, ResponseNeeded, no_response, multicast, unicast, Engine,
}
use cotton.Ssdp.Engine.Target.{target_match}
use cotton.Ssdp.Engine.Url.{rewrite_host}
use cotton.Ssdp.Engine.Timeouts.{poll_timeout, handle_timeout}
use cotton.Ssdp.Engine.Events.{on_data, search_delay}
use cotton.Ssdp.Engine.Samples.{
  numbers, numbers-IsEq, groups, millis, millis-IsTimebase, millis-IsOrder, heard_by,
}
use cotton.Ssdp.Engine.Hearing.{Hears, on_data-Hears}
use cotton.Ssdp.Engine.Waking.{IsFirst, poll_timeout-IsFirst}
use cotton.Ssdp.Engine.Acting.{Settles, handle_timeout-Settles}
use cotton.Ssdp.Engine.Network.{holds, position, swap_remove, on_network_event, on_del_addr_event}
use cotton.Ssdp.Engine.Ips as Ips
use cotton.Ssdp.Engine.Ips.{IsEq}
use cotton.Ssdp.Engine.Valid.{IsInterface, IsEngine, on_network_event-IsEngine}
use cotton.Ssdp.Message.RoundTrip.{IsValue}
use cotton.Ssdp.Engine.Discovery.{recorder, Fits, Discovers, search-Discovers}
use cotton.Ssdp.Engine.Salvo.{Refreshes, refresh-Refreshes}
use cotton.Ssdp.Engine.Hosts.{port, url_of, rewrite_host_lem}

abbrev root_device : Advertisement
root_device = record {
  notification_type = codes "upnp:rootdevice";
  location = codes "http://host/x";
}

abbrev engine : ResponseNeeded ℕ ℕ ℕ → Engine ℕ ℕ ℕ ℕ
engine owed = record {
  interfaces = (1, record { ips = 7 ∷ 8 ∷ 9 ∷ []; up = true }) ∷ [];
  active_searches = record { notification_type = codes "ssdp:all"; callback = 4 } ∷ [];
  advertisements =
      (codes "uuid:37", record { advertisement = root_device; response_needed = owed }) ∷ [];
  refresh_timer = record { random_seed = 12; next_salvo = 100; phase = 0 };
  random_seed = 12345;
}

-- A search that waits 0 s
abbrev hasty : Bytes
hasty = codes "M-SEARCH * HTTP/1.1\r\nST: upnp:rootdevice\r\nMX: 0\r\n\r\n"

hasty_panics : on_data numbers millis heard_by (engine no_response) hasty 7 1234 50 [] ≡ panics
unfolding on_data search_delay parse message_of collect Message.get is_utf8 lines split_once
    to_upper trim trim_start trim_end parse_below
hasty_panics = refl

on_data-Hears_example :
    Hears numbers millis heard_by
      (engine no_response)
      7
      1234
      50
      []
      (parse hasty)
      (on_data numbers millis heard_by (engine no_response) hasty 7 1234 50 [])
on_data-Hears_example =
    on_data-Hears numbers millis heard_by (engine no_response) hasty 7 1234 50 []

poll_timeout-IsFirst_example :
    IsFirst millis (engine (multicast 60)) (poll_timeout millis (engine (multicast 60)))
poll_timeout-IsFirst_example = poll_timeout-IsFirst millis millis-IsOrder (engine (multicast 60))

handle_timeout-Settles_example :
    Settles millis 120
      (engine (unicast 110 1234 7 (codes "upnp:rootdevice")))
      (handle_timeout millis numbers recorder
        (engine (unicast 110 1234 7 (codes "upnp:rootdevice")))
        []
        120).0
unfolding next_refresh
handle_timeout-Settles_example =
    handle_timeout-Settles millis numbers recorder millis-IsOrder millis-IsTimebase
      (engine (unicast 110 1234 7 (codes "upnp:rootdevice"))) [] 120 refl

three-IsInterface : IsInterface numbers (record { ips = 7 ∷ 8 ∷ 9 ∷ []; up = true })
unfolding holds
three-IsInterface = record {
  four = λ a h. ground arith;
  distinct = Ips.added refl (Ips.added refl (Ips.added refl Ips.empty));
}

engine-IsEngine : (owed : ResponseNeeded ℕ ℕ ℕ) → IsEngine numbers (engine owed)
engine-IsEngine owed = record { each = Map.added three-IsInterface Map.empty }

gone :
    (on_network_event numbers recorder groups
      (del_addr 1 7 24)
      (engine no_response)
      []
      []).1.interfaces
    ≡ (1, record { ips = 9 ∷ 8 ∷ []; up = true }) ∷ []
unfolding on_network_event on_del_addr_event get insert position swap_remove
gone = refl

on_network_event-IsEngine_example :
    IsEngine numbers
      (on_network_event numbers recorder groups (new_addr 1 6 24) (engine no_response) [] []).1
on_network_event-IsEngine_example =
    on_network_event-IsEngine numbers numbers-IsEq recorder groups (new_addr 1 6 24)
      (engine no_response) [] [] (engine-IsEngine no_response)

rewrite_host_lem_example :
    rewrite_host
      (url_of (codes "http") (codes "127.0.0.1" ++ codes ":8080/index.xml"))
      (codes "10.0.0.7")
    ≡ url_of (codes "http") (codes "10.0.0.7" ++ codes ":8080/index.xml")
rewrite_host_lem_example =
    rewrite_host_lem (codes "http") (codes "127.0.0.1") (codes "10.0.0.7") (codes ":8080/index.xml")
      refl refl refl (port (codes "8080") (codes "index.xml") refl)

type-IsValue : IsValue (codes "upnp:rootdevice")
unfolding is_utf8 trim trim_start trim_end
type-IsValue = record { text = refl; line = omega arith; bare = refl }

name-IsValue : IsValue (codes "uuid:37")
unfolding is_utf8 trim trim_start trim_end
name-IsValue = record { text = refl; line = omega arith; bare = refl }

url-IsValue : IsValue (codes "http://8/x")
unfolding is_utf8 trim trim_start trim_end
url-IsValue = record { text = refl; line = omega arith; bare = refl }

fits :
    Fits
      (codes "upnp:rootdevice")
      (codes "uuid:37")
      (rewrite_host (codes "http://host/x") (codes "8"))
      (codes "upnp:rootdevice")
unfolding rewrite_host find Message.search_pieces Message.response_pieces
fits = record {
  st_value = type-IsValue;
  usn_value = name-IsValue;
  url_value = url-IsValue;
  type_value = type-IsValue;
  search_room = omega arith;
  response_room = omega arith;
}

-- The device when its next refresh is far away
abbrev rested : Engine ℕ ℕ ℕ ℕ
rested = record (engine no_response) {
  refresh_timer = record { random_seed = 12; next_salvo = 6_000; phase = 0 };
}

search-Discovers_example :
    Discovers numbers millis heard_by
      (engine no_response)
      rested
      (codes "upnp:rootdevice")
      (codes "uuid:37")
      root_device
      7
      8
      1234
      1900
      50
      5_060
      []
unfolding target_match next_refresh
search-Discovers_example =
    search-Discovers numbers millis heard_by millis-IsOrder millis-IsTimebase (engine no_response)
      rested (codes "upnp:rootdevice") (codes "uuid:37") root_device 7 8 1234 1900 50 5_060 [] fits
      refl refl refl

refresh-Refreshes_example :
    Refreshes numbers (engine no_response) [] (refresh numbers recorder (engine no_response) [])
refresh-Refreshes_example = refresh-Refreshes numbers (engine no_response) []
