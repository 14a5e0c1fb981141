-- ===== src/Ssdp/Message/Tests.antt =====
-- cotton-ssdp/src/message.rs on concrete messages.
use cotton.Prelude.{◌≡◌, refl, ◌++◌, take, replicate, arith}
use cotton.Prelude.Bytes.{Bytes, codes}
use cotton.Prelude.Result.{ok}
use cotton.Ssdp.Text.{is_utf8, lines, split_once, to_upper, trim, trim_start, trim_end, parse_below}
use cotton.Ssdp.Message.{
  notify_alive, notify_bye_bye, response, search, parse, response_pieces, byebye_pieces,
  build_response, build_byebye, message_of, collect, get, build_notify, build_search, write_pieces,
  write_str, search_pieces, notify_pieces, crlf,
}
use cotton.Ssdp.Message.RoundTrip.{IsValue, sent, parse_built}

found :
    parse (
      crlf (codes "M-SEARCH * HTTP/1.1") ++ (crlf (codes "st:  upnp:rootdevice ") ++ codes "Mx:+5"))
    ≡ ok (search (codes "upnp:rootdevice") 5)
unfolding parse message_of collect get is_utf8 lines split_once to_upper trim trim_start trim_end
    parse_below
found = refl

built :
    (let r = build_search (replicate 200 0) (codes "ssdp:all") in parse (take r.0 r.1))
    ≡ ok (search (codes "ssdp:all") 5)
unfolding build_search write_pieces write_str search_pieces parse message_of collect get is_utf8
    lines split_once to_upper trim trim_start trim_end parse_below
built = refl

root_device : IsValue (codes "upnp:rootdevice")
unfolding is_utf8 trim trim_start trim_end
root_device = record { text = refl; line = omega arith; bare = refl }

name : IsValue (codes "uuid:37")
unfolding is_utf8 trim trim_start trim_end
name = record { text = refl; line = omega arith; bare = refl }

url : IsValue (codes "http://10.0.0.1/x y")
unfolding is_utf8 trim trim_start trim_end
url = record { text = refl; line = omega arith; bare = refl }

abbrev packet : Bytes
packet = replicate 512 0

parse_built_example :
    (parse (sent (build_search packet (codes "upnp:rootdevice")))
      ≡ ok (search (codes "upnp:rootdevice") 5))
    × (parse (
          sent (
            build_response packet
              (codes "upnp:rootdevice")
              (codes "uuid:37")
              (codes "http://10.0.0.1/x y")))
        ≡ ok (response (codes "upnp:rootdevice") (codes "uuid:37") (codes "http://10.0.0.1/x y")))
    × (parse (
          sent (
            build_notify packet
              (codes "upnp:rootdevice")
              (codes "uuid:37")
              (codes "http://10.0.0.1/x y")))
        ≡ ok (
            notify_alive (codes "upnp:rootdevice") (codes "uuid:37") (codes "http://10.0.0.1/x y")))
    × (parse (sent (build_byebye packet (codes "upnp:rootdevice") (codes "uuid:37")))
        ≡ ok (notify_bye_bye (codes "upnp:rootdevice") (codes "uuid:37")))
unfolding search_pieces response_pieces notify_pieces byebye_pieces
parse_built_example =
    parse_built packet (codes "upnp:rootdevice") (codes "uuid:37") (codes "http://10.0.0.1/x y")
      root_device name url (omega arith) (omega arith) (omega arith) (omega arith)
