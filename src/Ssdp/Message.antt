-- ===== src/Ssdp/Message.antt =====
-- cotton-ssdp/src/message.rs: the messages, the parser, and the builders that write into a buffer.
pub mod Cursor
pub mod RoundTrip
mod Tests
use cotton.Prelude.{
  ℕ, zero, suc, ◌+◌, Bool, true, false, Option, none, some, List, [], ◌∷◌, ◌++◌, length, take, drop,
  ltb, if◌then◌else◌,
}
use cotton.Prelude.Bytes.{Bytes, codes}
use cotton.Prelude.Result.{Result, ok, err}
use cotton.Ssdp.Text.{same, is_utf8, lines, split_once, to_upper, trim, parse_below}

pub data Message : Type 0 where
  notify_alive : (notification_type unique_service_name location : Bytes) → Message
  notify_bye_bye : (notification_type unique_service_name : Bytes) → Message
  search : (search_target : Bytes) (maximum_wait_sec : ℕ) → Message
  response : (search_target unique_service_name location : Bytes) → Message

pub data Error : Type 0 where
  invalid_data unexpected_eof : Error

-- The map of the headers; of two with the same key the last stands.
abbrev pub Headers : Type 0
Headers = List (Bytes × Bytes)

abbrev insert : Option (Bytes × Bytes) → Headers → Headers
insert none map = map
insert (some (key, value)) map = (to_upper key, trim value) ∷ map

-- `for line in iter`, from the headers that are in the map
unfoldable pub collect : List Bytes → Headers → Headers
collect [] map = map
collect (line ∷ rest) map = collect rest (insert (split_once b':' line) map)

unfoldable pub get : Bytes → Headers → Option Bytes
get key [] = none
get key ((k, v) ∷ map) = let rest = get key map in if same k key then some v else rest

abbrev with_one : Option Bytes → (Bytes → Result Error Message) → Result Error Message
with_one none f = err invalid_data
with_one (some v) f = f v

abbrev notify_of : Headers → Bytes → Result Error Message
notify_of map nts =
    if same nts (codes "ssdp:alive")
    then with_one (get (codes "NT") map) (λ nt.
      with_one (get (codes "USN") map)
        (λ usn. with_one (get (codes "LOCATION") map) (λ loc. ok (notify_alive nt usn loc))))
    else if same nts (codes "ssdp:byebye")
    then with_one (get (codes "NT") map)
        (λ nt. with_one (get (codes "USN") map) (λ usn. ok (notify_bye_bye nt usn)))
    else err invalid_data

abbrev search_of : Bytes → Option ℕ → Result Error Message
search_of st none = err invalid_data
search_of st (some mxn) = ok (search st mxn)

-- `match prefix`
unfoldable pub message_of : Bytes → Headers → Result Error Message
message_of prefix map =
    if same prefix (codes "NOTIFY * HTTP/1.1")
    then with_one (get (codes "NTS") map) (notify_of map)
    else if same prefix (codes "HTTP/1.1 200 OK")
    then with_one (get (codes "ST") map) (λ st.
      with_one (get (codes "USN") map)
        (λ usn. with_one (get (codes "LOCATION") map) (λ loc. ok (response st usn loc))))
    else if same prefix (codes "M-SEARCH * HTTP/1.1")
    then with_one (get (codes "ST") map)
        (λ st. with_one (get (codes "MX") map) (λ mx. search_of st (parse_below 256 mx)))
    else err invalid_data

abbrev pub parse_lines : List Bytes → Result Error Message
parse_lines [] = err unexpected_eof
parse_lines (prefix ∷ rest) = message_of prefix (collect rest [])

unfoldable pub parse : Bytes → Result Error Message
parse buf = if is_utf8 buf then parse_lines (lines buf) else err invalid_data

pub record MessageCursor : Type 0 where
  pub buf : Bytes
  pub offset : ℕ

abbrev pub new_cursor : Bytes → MessageCursor
new_cursor buf = record { buf = buf; offset = 0 }

-- `write_str`; `none` if the text does not fit, and then nothing is written.
unfoldable pub write_str : Bytes → MessageCursor → Option MessageCursor
write_str s cursor =
    if ltb (length cursor.buf) (length s + cursor.offset)
    then none
    else some (record {
      buf = take cursor.offset cursor.buf ++ (s ++ drop (cursor.offset + length s) cursor.buf);
      offset = cursor.offset + length s;
    })

-- `write!`: the pieces of the format one by one, up to the first that does not fit.
unfoldable pub write_pieces : List Bytes → MessageCursor → MessageCursor
write_pieces [] cursor = cursor
write_pieces (s ∷ rest) cursor = elim (write_str s cursor) [
  | none ↦ cursor
  | some cursor' ↦ write_pieces rest cursor'
]

-- A builder: the position at the end, and the buffer.
abbrev pub build : List Bytes → Bytes → ℕ × Bytes
build pieces buf = let cursor = write_pieces pieces (new_cursor buf) in (cursor.offset, cursor.buf)

-- A line of a header ends in a carriage return and a newline.
abbrev pub crlf : Bytes → Bytes
crlf s = s ++ 13 ∷ 10 ∷ []

-- `SERVER: none/0 UPnP/1.0 {name}/{version}` and the empty line behind it
abbrev pub server : List Bytes
server =
    (crlf [] ++ codes "SERVER: none/0 UPnP/1.0 ")
    ∷ codes "cotton-ssdp"
    ∷ codes "/"
    ∷ codes "0.0.5"
    ∷ crlf (crlf [])
    ∷ []

unfoldable pub search_pieces : Bytes → List Bytes
search_pieces search_type =
    (crlf (codes "M-SEARCH * HTTP/1.1")
      ++ (crlf (codes "HOST: 239.255.255.250:1900")
          ++ (crlf (codes "MAN: \"ssdp:discover\"") ++ (crlf (codes "MX: 5") ++ codes "ST: "))))
    ∷ search_type
    ∷ crlf (crlf [])
    ∷ []

unfoldable pub build_search : Bytes → Bytes → ℕ × Bytes
build_search buf search_type = build (search_pieces search_type) buf

unfoldable pub response_pieces : Bytes → Bytes → Bytes → List Bytes
response_pieces search_target unique_service_name location =
    (crlf (codes "HTTP/1.1 200 OK") ++ (crlf (codes "CACHE-CONTROL: max-age=1800") ++ codes "ST: "))
    ∷ search_target
    ∷ (crlf [] ++ codes "USN: ")
    ∷ unique_service_name
    ∷ (crlf [] ++ codes "LOCATION: ")
    ∷ location
    ∷ server

unfoldable pub build_response : Bytes → Bytes → Bytes → Bytes → ℕ × Bytes
build_response buf search_target unique_service_name location =
    build (response_pieces search_target unique_service_name location) buf

unfoldable pub notify_pieces : Bytes → Bytes → Bytes → List Bytes
notify_pieces notification_type unique_service_name location =
    (crlf (codes "NOTIFY * HTTP/1.1")
      ++ (crlf (codes "HOST: 239.255.255.250:1900")
          ++ (crlf (codes "CACHE-CONTROL: max-age=1800") ++ codes "LOCATION: ")))
    ∷ location
    ∷ (crlf [] ++ codes "NT: ")
    ∷ notification_type
    ∷ (crlf [] ++ (crlf (codes "NTS: ssdp:alive") ++ codes "USN: "))
    ∷ unique_service_name
    ∷ server

unfoldable pub build_notify : Bytes → Bytes → Bytes → Bytes → ℕ × Bytes
build_notify buf notification_type unique_service_name location =
    build (notify_pieces notification_type unique_service_name location) buf

unfoldable pub byebye_pieces : Bytes → Bytes → List Bytes
byebye_pieces notification_type unique_service_name =
    (crlf (codes "NOTIFY * HTTP/1.1")
      ++ (crlf (codes "HOST: 239.255.255.250:1900")
          ++ (crlf (codes "CACHE-CONTROL: max-age=1800") ++ codes "NT: ")))
    ∷ notification_type
    ∷ (crlf [] ++ (crlf (codes "NTS: ssdp:byebye") ++ codes "USN: "))
    ∷ unique_service_name
    ∷ server

unfoldable pub build_byebye : Bytes → Bytes → Bytes → ℕ × Bytes
build_byebye buf notification_type unique_service_name =
    build (byebye_pieces notification_type unique_service_name) buf
