-- ===== src/Ssdp/Message/RoundTrip.antt =====
-- cotton-ssdp/src/message.rs: what is built is parsed again.
use cotton.Prelude.{ℕ, ◌≤◌, ◌≡◌, refl, ◌∙◌, ap, true, [], ◌∷◌, length, take}
use cotton.Prelude.Bytes.{Bytes, codes}
use cotton.Prelude.Result.{ok}
use cotton.Ssdp.Text.{is_utf8, lines, split_once, to_upper, trim, trim_start, trim_end, parse_below}
use cotton.Ssdp.Text.Lines.{IsLine, is_utf8-append, lines_after-append}
use cotton.Ssdp.Message.{
  notify_alive, notify_bye_bye, search, response, parse, message_of, collect, get, search_pieces,
  build_search, response_pieces, build_response, notify_pieces, build_notify, byebye_pieces,
  build_byebye,
}
use cotton.Ssdp.Message.Cursor.{concat, build_whole}

-- A value that a header can carry: text on one line, without white space at its ends.
pub record IsValue (v : Bytes) : Type 0 where
  pub text : is_utf8 v ≡ true
  pub line : IsLine v
  pub bare : trim v ≡ v

-- A value behind `KEY: `, which leaves one space in front of it.
trim_space : (v : Bytes) → trim (32 ∷ v) ≡ trim v
unfolding trim trim_start
trim_space v = refl

trim_five : trim (codes " 5") ≡ codes "5"
unfolding trim trim_start trim_end
trim_five = refl

trim_alive : trim (codes " ssdp:alive") ≡ codes "ssdp:alive"
unfolding trim trim_start trim_end
trim_alive = refl

trim_byebye : trim (codes " ssdp:byebye") ≡ codes "ssdp:byebye"
unfolding trim trim_start trim_end
trim_byebye = refl

search_text : (st : Bytes) → IsValue st → parse (concat (search_pieces st)) ≡ ok (search st 5)
unfolding parse search_pieces is_utf8 lines message_of collect get split_once to_upper parse_below
search_text st v =
    let end : Bytes = 13 ∷ 10 ∷ [] in
    rw
      (
        is_utf8-append st (13 ∷ 10 ∷ end) v.text,
        lines_after-append (codes "ST: ") st end v.line,
        trim_space st,
        v.bare,
        trim_five,
      )
      refl

response_text :
    (st usn loc : Bytes)
    → IsValue st
    → IsValue usn
    → IsValue loc
    → parse (concat (response_pieces st usn loc)) ≡ ok (response st usn loc)
unfolding parse response_pieces is_utf8 lines message_of collect get split_once to_upper
response_text st usn loc v w x =
    rw
      (
        is_utf8-append st _ v.text,
        is_utf8-append usn _ w.text,
        is_utf8-append loc _ x.text,
        lines_after-append (codes "ST: ") st _ v.line,
        lines_after-append (codes "USN: ") usn _ w.line,
        lines_after-append (codes "LOCATION: ") loc _ x.line,
        trim_space st,
        trim_space usn,
        trim_space loc,
        v.bare,
        w.bare,
        x.bare,
      )
      refl

notify_text :
    (nt usn loc : Bytes)
    → IsValue nt
    → IsValue usn
    → IsValue loc
    → parse (concat (notify_pieces nt usn loc)) ≡ ok (notify_alive nt usn loc)
unfolding parse notify_pieces is_utf8 lines message_of collect get split_once to_upper
notify_text nt usn loc v w x =
    rw
      (
        is_utf8-append loc _ x.text,
        is_utf8-append nt _ v.text,
        is_utf8-append usn _ w.text,
        lines_after-append (codes "LOCATION: ") loc _ x.line,
        lines_after-append (codes "NT: ") nt _ v.line,
        lines_after-append (codes "USN: ") usn _ w.line,
        trim_alive,
        trim_space nt,
        trim_space usn,
        trim_space loc,
        v.bare,
        w.bare,
        x.bare,
      )
      refl

byebye_text :
    (nt usn : Bytes)
    → IsValue nt
    → IsValue usn
    → parse (concat (byebye_pieces nt usn)) ≡ ok (notify_bye_bye nt usn)
unfolding parse byebye_pieces is_utf8 lines message_of collect get split_once to_upper
byebye_text nt usn v w =
    rw
      (
        is_utf8-append nt _ v.text,
        is_utf8-append usn _ w.text,
        lines_after-append (codes "NT: ") nt _ v.line,
        lines_after-append (codes "USN: ") usn _ w.line,
        trim_byebye,
        trim_space nt,
        trim_space usn,
        v.bare,
        w.bare,
      )
      refl

-- What is sent: the bytes in front of the position that a builder returns.
abbrev pub sent : ℕ × Bytes → Bytes
sent r = take r.0 r.1

pub parse-build_search :
    (buf st : Bytes)
    → IsValue st
    → length (concat (search_pieces st)) ≤ length buf
    → parse (sent (build_search buf st)) ≡ ok (search st 5)
unfolding build_search
parse-build_search buf st v h = ap parse (build_whole (search_pieces st) buf h) ∙ search_text st v

pub parse-build_response :
    (buf st usn loc : Bytes)
    → IsValue st
    → IsValue usn
    → IsValue loc
    → length (concat (response_pieces st usn loc)) ≤ length buf
    → parse (sent (build_response buf st usn loc)) ≡ ok (response st usn loc)
unfolding build_response
parse-build_response buf st usn loc v w x h =
    ap parse (build_whole (response_pieces st usn loc) buf h) ∙ response_text st usn loc v w x

-- In a buffer with room for the message, each builder writes a message that is parsed as the message
-- it was built from, a search with a maximum wait of 5 seconds, for values of one line that are valid
-- text and have no white space at their ends.
pub parse_built :
    (buf nt usn loc : Bytes)
    → IsValue nt
    → IsValue usn
    → IsValue loc
    → length (concat (search_pieces nt)) ≤ length buf
    → length (concat (response_pieces nt usn loc)) ≤ length buf
    → length (concat (notify_pieces nt usn loc)) ≤ length buf
    → length (concat (byebye_pieces nt usn)) ≤ length buf
    → (parse (sent (build_search buf nt)) ≡ ok (search nt 5))
      × (parse (sent (build_response buf nt usn loc)) ≡ ok (response nt usn loc))
      × (parse (sent (build_notify buf nt usn loc)) ≡ ok (notify_alive nt usn loc))
      × (parse (sent (build_byebye buf nt usn)) ≡ ok (notify_bye_bye nt usn))
unfolding build_notify build_byebye
parse_built buf nt usn loc v w x a b c d = (
  parse-build_search buf nt v a,
  parse-build_response buf nt usn loc v w x b,
  ap parse (build_whole (notify_pieces nt usn loc) buf c) ∙ notify_text nt usn loc v w x,
  ap parse (build_whole (byebye_pieces nt usn) buf d) ∙ byebye_text nt usn v w,
)
