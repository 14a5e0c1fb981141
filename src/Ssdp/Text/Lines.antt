-- ===== src/Ssdp/Text/Lines.antt =====
-- cotton-ssdp: a text that is put together is valid UTF-8, and falls into its lines again.
use cotton.Prelude.{
  ℕ, ◌≡◌, refl, ◌∙◌, ap, ◌≢◌, true, false, Option-cases, inl, inr, [], ◌∷◌, ◌++◌, append-nil,
  append_assoc, arith,
}
use cotton.Prelude.Bytes.{Bytes}
use cotton.Ssdp.Text.{
  Utf8, start, inside, read_byte, reads_from, is_utf8, strip_return, lines_after,
}

-- Behind a text that ends with a whole character the reader is at the start of one.
reads_from-append :
    (s : Utf8) (v rest : Bytes)
    → reads_from s v ≡ true
    → reads_from s (v ++ rest) ≡ reads_from start rest
reads_from-append start [] rest h = refl
reads_from-append (inside more low high) [] rest h = cc
reads_from-append s (b ∷ v) rest h = elim (Option-cases (read_byte s b)) [
  | inl q ↦ (let e : false ≡ true = rw (reads_from, q) at h in absurd cc)
  | inr (t, q) ↦ rw (reads_from, q) (reads_from-append t v rest (rw (reads_from, q) at h))
]

pub is_utf8-append :
    (v rest : Bytes) → is_utf8 v ≡ true → reads_from start (v ++ rest) ≡ reads_from start rest
unfolding is_utf8
is_utf8-append v rest h = reads_from-append start v rest h

-- No newline stands in the text.
abbrev pub IsLine : Bytes → Type 0
IsLine [] = Unit
IsLine (b ∷ v) = (b ≢ 10) × IsLine v

strip_return-append : (v : Bytes) → strip_return (v ++ 13 ∷ []) ≡ v
strip_return-append [] = refl
strip_return-append (b ∷ []) = refl
strip_return-append (b ∷ c ∷ v) = ap (λ t. b ∷ t) (strip_return-append (c ∷ v))

lines_after-step :
    (line : Bytes) (b : ℕ) (bs : Bytes)
    → b ≢ 10
    → lines_after line (b ∷ bs) ≡ lines_after (line ++ b ∷ []) bs
lines_after-step [] b bs h = ground arith
lines_after-step (c ∷ line) b bs h = ground arith

lines_after-newline :
    (line bs : Bytes) → lines_after line (10 ∷ bs) ≡ strip_return line ∷ lines_after [] bs
lines_after-newline [] bs = refl
lines_after-newline (c ∷ line) bs = refl

-- A line that is read up to its end comes back without the carriage return and the newline.
pub lines_after-append :
    (line v rest : Bytes)
    → IsLine v
    → lines_after line (v ++ 13 ∷ 10 ∷ rest) ≡ (line ++ v) ∷ lines_after [] rest
lines_after-append line [] rest h =
    lines_after-step line 13 (10 ∷ rest) (omega arith)
    ∙ lines_after-newline (line ++ 13 ∷ []) rest
    ∙ rw (strip_return-append line, append-nil) refl
lines_after-append line (b ∷ v) rest h =
    lines_after-step line b (v ++ 13 ∷ 10 ∷ rest) h.0
    ∙ lines_after-append (line ++ b ∷ []) v rest h.1
    ∙ rw (append_assoc line (b ∷ []) v) refl
