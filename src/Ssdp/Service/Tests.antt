-- ===== src/Ssdp/Service/Tests.antt =====
-- cotton-ssdp/src/service.rs on concrete calls.
use cotton.Prelude.{ℕ, ◌≡◌, ◌≢◌, refl, sym, ap, ◌∙◌, List, [], ◌∷◌, arith}
use cotton.Prelude.Bytes.{Bytes, codes}
use cotton.Prelude.Result.{Result, ok}
use cotton.Netif.{NetworkEvent, new_link, new_addr}
use cotton.Ssdp.Text.{is_utf8, lines, split_once, to_upper, trim, trim_start, trim_end, parse_below}
use cotton.Ssdp.Message as Message
use cotton.Ssdp.Message.{parse}
use cotton.Ssdp.Engine.Discovery.{Sent, recorder}
use cotton.Ssdp.Engine.Samples.{numbers, numbers-IsEq, groups, millis, heard_by}
use cotton.Ssdp.Service.{Packet, Call, subscribe, advertise, search_ready, wakeup}
use cotton.Ssdp.Service.Start.{Sockets, new_inner}
use cotton.Ssdp.Service.Running.{
  no_packets, calm, no_calls, of_subscriber, of_advertiser, of_search, of_timer,
}
use cotton.Ssdp.Service.Lifetime.{Runs, new_inner-calls}

abbrev sockets : Sockets ℕ (Sent ℕ ℕ) (List ℕ)
sockets = record {
  multicast_on = λ port. ok [];
  search_on = λ port. ok [];
  register_multicast = λ m. ok tt;
  register_search = λ k. ok tt;
}

abbrev interfaces : List (NetworkEvent ℕ)
interfaces = new_link 1 (codes "eth0") 0x1041 ∷ new_addr 1 7 24 ∷ new_addr 1 7 24 ∷ []

abbrev asked : Packet ℕ ℕ ℕ
asked = record {
  contents = codes "M-SEARCH * HTTP/1.1\r\nST: test\r\nMX: 2\r\n\r\n";
  wasto = 7;
  wasfrom = 1234;
  now = 20;
}

asked_parse : parse asked.contents ≡ ok (Message.search (codes "test") 2)
unfolding parse Message.message_of Message.collect Message.get is_utf8 lines split_once to_upper
    trim trim_start trim_end parse_below
asked_parse = refl

-- How long a search waits
abbrev wait : Result Message.Error Message.Message → ℕ
wait (ok (Message.search st mx)) = mx
wait r = 1

asked_calm : (st : Bytes) → parse asked.contents ≢ ok (Message.search st 0)
asked_calm st e = omega (arith, ap wait (sym asked_parse ∙ e))

abbrev some_calls : List (Call ℕ ℕ ℕ ℕ)
some_calls =
    subscribe (codes "ssdp:all") 4
    ∷ advertise (codes "uuid:37")
        (record { notification_type = codes "test"; location = codes "http://host/x" })
    ∷ search_ready (asked ∷ [])
    ∷ wakeup 40
    ∷ []

new_inner-calls_example :
    Runs numbers numbers-IsEq millis heard_by recorder groups sockets some_calls
      (new_inner numbers millis recorder groups sockets interfaces 12 0 [])
new_inner-calls_example =
    new_inner-calls numbers numbers-IsEq millis heard_by recorder groups sockets interfaces 12 0 []
      (of_subscriber (of_advertiser (of_search (calm asked_calm no_packets) (of_timer no_calls))))
