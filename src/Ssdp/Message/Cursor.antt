-- ===== src/Ssdp/Message/Cursor.antt =====
-- cotton-ssdp/src/message.rs: what a builder leaves in the buffer, however small that is.
use cotton.Prelude.{
  ℕ, ◌+◌, ◌-◌, ◌≤◌, ◌≡◌, refl, sym, ◌∙◌, ap, true, false, Bool-cases, inl, inr, List, [], ◌∷◌, ◌++◌,
  append-nil, append_assoc, length, take, drop, length-append, length-take, length-drop, drop-drop,
  take_exact, drop_exact, ltb, leb, if◌then◌else◌, arith,
}
use cotton.Prelude.Bytes.{Bytes}
use cotton.Ssdp.Message.{MessageCursor, write_str, write_pieces, build, new_cursor}

abbrev pub concat : List Bytes → Bytes
concat [] = []
concat (s ∷ pieces) = s ++ concat pieces

-- The pieces that fit into so many bytes, up to the first that does not.
abbrev pub fitting : ℕ → List Bytes → List Bytes
fitting room [] = []
fitting room (s ∷ pieces) =
    let rest = fitting (room - length s) pieces in if leb (length s) room then s ∷ rest else []

-- The buffer keeps its length, holds the text from the old offset to the new one, and is otherwise as
-- it was.
pub record Appends (text : Bytes) (c c' : MessageCursor) : Type 0 where
  pub moved : c'.offset ≡ c.offset + length text
  pub inside : c'.offset ≤ length c'.buf
  pub size : length c'.buf ≡ length c.buf
  pub written : take c'.offset c'.buf ≡ take c.offset c.buf ++ text
  pub untouched : drop c'.offset c'.buf ≡ drop c'.offset c.buf

wrote : MessageCursor → Bytes → MessageCursor
wrote c s = record {
  buf = take c.offset c.buf ++ (s ++ drop (c.offset + length s) c.buf);
  offset = c.offset + length s;
}

wrote-Appends :
    (s : Bytes) (c : MessageCursor) → c.offset + length s ≤ length c.buf → Appends s c (wrote c s)
unfolding wrote
wrote-Appends s c h =
    let n = length-take c.offset c.buf in
    let k : length (take c.offset c.buf ++ s) ≡ c.offset + length s =
      length-append (take c.offset c.buf) s ∙ omega arith in
    let e = append_assoc (take c.offset c.buf) s (drop (c.offset + length s) c.buf) in
    let l : length (take c.offset c.buf ++ (s ++ drop (c.offset + length s) c.buf)) ≡ length c.buf =
      omega (
        arith,
        ap length e,
        length-append (take c.offset c.buf ++ s) (drop (c.offset + length s) c.buf),
        length-drop (c.offset + length s) c.buf,
      ) in
    record {
      moved = refl;
      inside = omega arith;
      size = l;
      written =
          ap (take (c.offset + length s)) (sym e)
          ∙ take_exact (c.offset + length s) (take c.offset c.buf ++ s)
              (drop (c.offset + length s) c.buf) k;
      untouched =
          ap (drop (c.offset + length s)) (sym e)
          ∙ drop_exact (c.offset + length s) (take c.offset c.buf ++ s)
              (drop (c.offset + length s) c.buf) k;
    }

drop_further : (m k : ℕ) (xs ys : Bytes) → drop m xs ≡ drop m ys → drop (m + k) xs ≡ drop (m + k) ys
drop_further m k xs ys e = sym (drop-drop k m xs) ∙ ap (drop k) e ∙ drop-drop k m ys

Appends-nil : (c : MessageCursor) → c.offset ≤ length c.buf → Appends [] c c
Appends-nil c h = record {
  moved = omega arith;
  inside = h;
  size = refl;
  written = sym (append-nil (take c.offset c.buf));
  untouched = refl;
}

Appends-append :
    (s t : Bytes) (c d e : MessageCursor) → Appends s c d → Appends t d e → Appends (s ++ t) c e
Appends-append s t c d e a b =
    let l = length-append s t in
    let far : e.offset ≡ d.offset + length t = b.moved in
    record {
      moved = omega (arith, a.moved, b.moved);
      inside = b.inside;
      size = b.size ∙ a.size;
      written = b.written ∙ ap (λ xs. xs ++ t) a.written ∙ append_assoc (take c.offset c.buf) s t;
      untouched = b.untouched ∙ rw far (drop_further d.offset (length t) d.buf c.buf a.untouched);
    }

-- From a cursor within its buffer the pieces that fit are written one behind the other.
write_pieces-Appends :
    (pieces : List Bytes) (c : MessageCursor)
    → c.offset ≤ length c.buf
    → Appends (concat (fitting (length c.buf - c.offset) pieces)) c (write_pieces pieces c)
unfolding write_pieces write_str wrote
write_pieces-Appends [] c h = Appends-nil c h
write_pieces-Appends (s ∷ pieces) c h =
    elim (Bool-cases (ltb (length c.buf) (length s + c.offset))) [
      | inl q ↦
          let full : leb (length s) (length c.buf - c.offset) ≡ false = ground arith in
          rw (write_pieces, write_str, q, full) (Appends-nil c h)
      | inr q ↦
          let fits : leb (length s) (length c.buf - c.offset) ≡ true = ground arith in
          let a = wrote-Appends s c (ground arith) in
          let room : length (wrote c s).buf - (wrote c s).offset
              ≡ length c.buf - c.offset - length s =
            omega (arith, a.size, a.moved) in
          rw (write_pieces, write_str, q, fits)
            (Appends-append s _ c (wrote c s) _ a
              (rw room at (write_pieces-Appends pieces (wrote c s) a.inside)))
    ]

-- Whatever the size of the buffer, a builder keeps that size, returns a position within it, leaves in
-- front of the position the pieces of the message up to the first that does not fit, and leaves the
-- rest of the buffer alone.
pub build_lem :
    (pieces : List Bytes) (buf : Bytes)
    → ((build pieces buf).0 ≤ length buf)
      × (length (build pieces buf).1 ≡ length buf)
      × (take (build pieces buf).0 (build pieces buf).1 ≡ concat (fitting (length buf) pieces))
      × (drop (build pieces buf).0 (build pieces buf).1 ≡ drop (build pieces buf).0 buf)
build_lem pieces buf =
    let a = write_pieces-Appends pieces (new_cursor buf) (omega arith) in
    let all : length buf - 0 ≡ length buf = omega arith in
    (omega (arith, a.inside, a.size), a.size, rw all at a.written, a.untouched)

all_fit :
    (pieces : List Bytes) (room : ℕ) → length (concat pieces) ≤ room → fitting room pieces ≡ pieces
all_fit [] room h = refl
all_fit (s ∷ pieces) room h =
    let l = length-append s (concat pieces) in
    let fits : leb (length s) room ≡ true = ground arith in
    rw fits (ap (λ ps. s ∷ ps) (all_fit pieces (room - length s) (omega arith)))

-- In a buffer with room for the whole message it stands there whole.
pub build_whole :
    (pieces : List Bytes) (buf : Bytes)
    → length (concat pieces) ≤ length buf
    → take (build pieces buf).0 (build pieces buf).1 ≡ concat pieces
build_whole pieces buf h = (build_lem pieces buf).2 ∙ ap concat (all_fit pieces (length buf) h)
