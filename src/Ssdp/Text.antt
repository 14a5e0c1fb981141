-- ===== src/Ssdp/Text.antt =====
-- What cotton-ssdp uses of the text functions of Rust. A `str` is its bytes in UTF-8.
pub mod Lines
use cotton.Prelude.{
  ℕ, zero, suc, ◌+◌, ◌-◌, ◌*◌, ◌^◌, Bool, true, false, ◌&&◌, ◌||◌, Option, none, some, List, [],
  ◌∷◌, ◌++◌, map, ◌==◌, ltb, leb, if◌then◌else◌,
}
use cotton.Prelude.Bytes.{Bytes, codes}

abbrev pub map_suc : Option ℕ → Option ℕ
map_suc none = none
map_suc (some n) = some (suc n)

-- `==` on texts.
abbrev pub same : Bytes → Bytes → Bool
same [] [] = true
same [] (c ∷ t) = false
same (b ∷ s) [] = false
same (b ∷ s) (c ∷ t) = b == c && same s t

-- Where a reader of UTF-8 is: at the start of a character, or before a byte from `low` to `high` with
-- `more` bytes behind it.
pub data Utf8 : Type 0 where
  start : Utf8
  inside : ℕ → ℕ → ℕ → Utf8

abbrev lead : ℕ → Option Utf8
lead b =
    if ltb b 0x80
    then some start
    else if ltb b 0xC2
    then none
    else if leb b 0xDF
    then some (inside 0 0x80 0xBF)
    else if b == 0xE0
    then some (inside 1 0xA0 0xBF)
    else if b == 0xED
    then some (inside 1 0x80 0x9F)
    else if leb b 0xEF
    then some (inside 1 0x80 0xBF)
    else if b == 0xF0
    then some (inside 2 0x90 0xBF)
    else if leb b 0xF3
    then some (inside 2 0x80 0xBF)
    else if b == 0xF4
    then some (inside 2 0x80 0x8F)
    else none

abbrev after : ℕ → Utf8
after zero = start
after (suc more) = inside more 0x80 0xBF

abbrev pub read_byte : Utf8 → ℕ → Option Utf8
read_byte start b = lead b
read_byte (inside more low high) b = if leb low b && leb b high then some (after more) else none

abbrev pub ends_in_start : Utf8 → Bool
ends_in_start start = true
ends_in_start (inside more low high) = false

abbrev pub reads_from : Utf8 → Bytes → Bool
reads_from s [] = ends_in_start s
reads_from s (b ∷ bs) = elim (read_byte s b) [ none ↦ false | some t ↦ reads_from t bs ]

-- Whether `core::str::from_utf8` accepts the bytes.
unfoldable pub is_utf8 : Bytes → Bool
is_utf8 bs = reads_from start bs

-- The line without a carriage return at its end.
abbrev pub strip_return : Bytes → Bytes
strip_return [] = []
strip_return (b ∷ []) = if b == 13 then [] else b ∷ []
strip_return (b ∷ c ∷ bs) = b ∷ strip_return (c ∷ bs)

-- `lines`: what has been read of the line stands in front. A last line without a newline keeps a
-- carriage return at its end.
abbrev pub lines_after : Bytes → Bytes → List Bytes
lines_after [] [] = []
lines_after (c ∷ line) [] = (c ∷ line) ∷ []
lines_after line (b ∷ bs) =
    if b == 10 then strip_return line ∷ lines_after [] bs else lines_after (line ++ b ∷ []) bs

unfoldable pub lines : Bytes → List Bytes
lines = lines_after []

-- `split_once` at a byte: what stands before the first one and behind it
abbrev pub push : ℕ → Option (Bytes × Bytes) → Option (Bytes × Bytes)
push b none = none
push b (some (key, value)) = some (b ∷ key, value)

unfoldable pub split_once : ℕ → Bytes → Option (Bytes × Bytes)
split_once d [] = none
split_once d (b ∷ bs) = let rest = split_once d bs in if b == d then some ([], bs) else push b rest

-- `rsplit_once`: at the last one
unfoldable pub rsplit_once : ℕ → Bytes → Option (Bytes × Bytes)
rsplit_once d [] = none
rsplit_once d (b ∷ bs) = elim (rsplit_once d bs) [
  | some parts ↦ push b (some parts)
  | none ↦ if b == d then some ([], bs) else none
]

abbrev pub upper_byte : ℕ → ℕ
upper_byte b = if leb b'a' b && leb b b'z' then b - 32 else b

-- `to_ascii_uppercase`
unfoldable pub to_upper : Bytes → Bytes
to_upper = map upper_byte

-- The white space of Unicode in one byte, and the bytes of that in two and three.
abbrev pub is_space : ℕ → Bool
is_space b = b == 32 || leb 9 b && leb b 13

abbrev is_space2 : ℕ → ℕ → Bool
is_space2 a b = a == 0xC2 && (b == 0x85 || b == 0xA0)

abbrev is_space3 : ℕ → ℕ → ℕ → Bool
is_space3 a b c =
    a == 0xE1 && b == 0x9A && c == 0x80
    || a == 0xE2 && b == 0x80 && (leb 0x80 c && leb c 0x8A || c == 0xA8 || c == 0xA9 || c == 0xAF)
    || a == 0xE2 && b == 0x81 && c == 0x9F
    || a == 0xE3 && b == 0x80 && c == 0x80

-- The bytes of the white space with which a text starts, none if it starts with something else; also
-- for a text that is read from its end.
abbrev wide_ahead : (ℕ → ℕ → Bool) → (ℕ → ℕ → ℕ → Bool) → ℕ → Bytes → ℕ
wide_ahead two three a [] = 0
wide_ahead two three a (b ∷ []) = if two a b then 2 else 0
wide_ahead two three a (b ∷ c ∷ bs) = if two a b then 2 else if three a b c then 3 else 0

-- The bytes of white space from which `skip` bytes are still to go.
abbrev pub trim_after : (ℕ → ℕ → Bool) → (ℕ → ℕ → ℕ → Bool) → ℕ → Bytes → Bytes
trim_after two three skip [] = []
trim_after two three (suc skip) (b ∷ bs) = trim_after two three skip bs
trim_after two three zero (b ∷ bs) =
    if is_space b
    then trim_after two three 0 bs
    else elim (wide_ahead two three b bs) [ zero ↦ b ∷ bs | suc n ↦ trim_after two three n bs ]

unfoldable pub trim_start : Bytes → Bytes
trim_start = trim_after is_space2 is_space3 0

abbrev pub reverse_onto : Bytes → Bytes → Bytes
reverse_onto acc [] = acc
reverse_onto acc (b ∷ bs) = reverse_onto (b ∷ acc) bs

unfoldable pub trim_end : Bytes → Bytes
trim_end s =
    reverse_onto []
      (trim_after (λ a b. is_space2 b a) (λ a b c. is_space3 c b a) 0 (reverse_onto [] s))

unfoldable pub trim : Bytes → Bytes
trim s = trim_end (trim_start s)

-- `parse` of an unsigned integer below `bound`: a sign `+` is allowed, and no other.
abbrev digits_from : ℕ → Bytes → Option ℕ
digits_from value [] = some value
digits_from value (b ∷ bs) =
    let rest = digits_from (value * 10 + (b - 48)) bs in
    if leb b'0' b && leb b b'9' then rest else none

abbrev digits : Bytes → Option ℕ
digits [] = none
digits (b ∷ bs) = digits_from 0 (b ∷ bs)

abbrev below : ℕ → Option ℕ → Option ℕ
below bound none = none
below bound (some n) = if ltb n bound then some n else none

unfoldable pub parse_below : ℕ → Bytes → Option ℕ
parse_below bound [] = none
parse_below bound (b ∷ bs) = below bound (if b == b'+' then digits bs else digits (b ∷ bs))

-- `find` of a text: the offset of the first place where it stands
abbrev pub starts_with : Bytes → Bytes → Bool
starts_with [] s = true
starts_with (c ∷ t) [] = false
starts_with (c ∷ t) (b ∷ s) = b == c && starts_with t s

unfoldable pub find : Bytes → Bytes → Option ℕ
find t [] = if starts_with t [] then some 0 else none
find t (b ∷ s) = let rest = find t s in if starts_with t (b ∷ s) then some 0 else map_suc rest
