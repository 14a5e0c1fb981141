-- ===== src/Scsi/Sense/Laws.antt =====
-- cotton-scsi/src/scsi_device.rs: which sense data the three tables name.
use cotton.Prelude.{
  Bool-cases, ℕ, ◌≤◌, ◌<◌, ◌≡◌, refl, ◌≢◌, ◌⊎◌, inl, inr, Bool, true, false, not, ◌&&◌, Option,
  none, some, List, [], ◌∷◌, ◌==◌, leb, arith,
}
use cotton.Scsi.Transport.{ScsiError}
use cotton.Scsi.Sense.{
  RequestSenseReply, errors1, errors2, errors3, find1, find2, find3, or_else, classify,
}

-- The keys of the table `ERRORS1`.
abbrev pub is_listed : ℕ → Bool
is_listed key = leb 2 key && (leb key 14 && not (key == 12))

-- The reply's key stands in no entry.
abbrev Absent1 : ℕ → List (ℕ × ScsiError) → Type 0
Absent1 k [] = Unit
Absent1 k ((key, e) ∷ es) = (k ≢ key) × Absent1 k es

abbrev Absent2 : ℕ → List (ℕ × ℕ × ScsiError) → Type 0
Absent2 k [] = Unit
Absent2 k ((key, a, e) ∷ es) = (k ≢ key) × Absent2 k es

abbrev Absent3 : ℕ → List (ℕ × ℕ × ℕ × ScsiError) → Type 0
Absent3 k [] = Unit
Absent3 k ((key, a, q, e) ∷ es) = (k ≢ key) × Absent3 k es

find1_absent :
    (r : RequestSenseReply) (es : List (ℕ × ScsiError)) → Absent1 r.sense_key es → find1 r es ≡ none
unfolding find1
find1_absent r [] h = refl
find1_absent r ((key, e) ∷ es) h = ground (arith, find1_absent r es h.1)

find2_absent :
    (r : RequestSenseReply) (es : List (ℕ × ℕ × ScsiError))
    → Absent2 r.sense_key es
    → find2 r es ≡ none
unfolding find2
find2_absent r [] h = refl
find2_absent r ((key, a, e) ∷ es) h = ground (arith, find2_absent r es h.1)

find3_absent :
    (r : RequestSenseReply) (es : List (ℕ × ℕ × ℕ × ScsiError))
    → Absent3 r.sense_key es
    → find3 r es ≡ none
unfolding find3
find3_absent r [] h = refl
find3_absent r ((key, a, q, e) ∷ es) h = ground (arith, find3_absent r es h.1)

-- A miss in the last table means that the key stands nowhere in it.
find1-none :
    (r : RequestSenseReply) (es : List (ℕ × ScsiError)) → find1 r es ≡ none → Absent1 r.sense_key es
unfolding find1
find1-none r [] h = tt
find1-none r ((key, e) ∷ es) h = ground (arith, find1-none r es)

listed_range : (k : ℕ) → is_listed k ≡ true → (2 ≤ k) × (k ≤ 14) × (k ≢ 12)
listed_range k h = ground arith

unlisted_range : (k : ℕ) → is_listed k ≡ false → (k < 2) ⊎ (14 < k) ⊎ (k ≡ 12)
unlisted_range k h = ground arith

last_none : (a b c : Option ScsiError) → or_else a (or_else b c) ≡ none → c ≡ none
last_none none none c h = h
last_none none (some e) c h = cc
last_none (some e) b c h = cc

classify-none : (r : RequestSenseReply) → classify r ≡ none → find1 r errors1 ≡ none
unfolding classify
classify-none r h = last_none (find3 r errors3) (find2 r errors2) (find1 r errors1) h

listed_named : (r : RequestSenseReply) → is_listed r.sense_key ≡ true → classify r ≢ none
listed_named r h n =
    let out = find1-none r errors1 (classify-none r n) in omega (arith, listed_range r.sense_key h)

unlisted_unnamed :
    (r : RequestSenseReply) → is_listed r.sense_key ≡ false → r.sense_key ≢ 1 → classify r ≡ none
unfolding classify
unlisted_unnamed r h n =
    let out = unlisted_range r.sense_key h in
    rw (
      find3_absent r errors3 (omega arith),
      find2_absent r errors2 (omega arith),
      find1_absent r errors1 (omega arith),
    )

-- Sense data fall into three kinds by their sense key: one of 2 to 11, 13 and 14 always yields a named
-- error, 1 may or may not, and every other key yields none.
pub classify_lem :
    (r : RequestSenseReply)
    → ((is_listed r.sense_key ≡ true) × (classify r ≢ none))
      ⊎ (r.sense_key ≡ 1)
      ⊎ ((is_listed r.sense_key ≡ false) × (classify r ≡ none))
classify_lem r = elim (Bool-cases (is_listed r.sense_key)) [
  | inl listed ↦ inl (listed, listed_named r listed)
  | inr unlisted ↦ elim (Bool-cases (r.sense_key == 1)) [
    | inl one ↦ inr (inl (ground arith))
    | inr other ↦ inr (inr (unlisted, unlisted_unnamed r unlisted (ground arith)))
  ]
]
