-- ===== src/Ssdp/BTreeMap/Laws.antt =====
-- What the ordered map of cotton-ssdp keeps.
use cotton.Prelude.{◌≡◌, refl, Bool, false, Bool-cases, inl, inr, Option, none, some, List, [], ◌∷◌}
use cotton.Ssdp.BTreeMap.{same_key, get, insert, remove}

-- Every value of a map has a property.
pub data Every {K V : Type 0} (P : V → Type 0) : List (K × V) → Type 0 where
  empty : Every P []
  added : {k : K} {v : V} {m : List (K × V)} → P v → Every P m → Every P ((k, v) ∷ m)

-- What has been found has a property.
pub data OfFound {V : Type 0} (P : V → Type 0) : Option V → Type 0 where
  nothing : OfFound P none
  found : (v : V) → P v → OfFound P (some v)

module _ {K V : Type 0} (less : K → K → Bool) {P : V → Type 0} where
  pub insert-Every :
      (k : K) (v : V) {m : List (K × V)} → P v → Every P m → Every P (insert less k v m)
  unfolding insert
  insert-Every k v p empty = added p empty
  insert-Every k v {m = (j, w) ∷ m} p (added q r) = elim (Bool-cases (less k j)) [
    | inl a ↦ rw a (added p (added q r))
    | inr a ↦ elim (Bool-cases (less j k)) [
      | inl b ↦ rw (a, b) (added q (insert-Every k v p r))
      | inr b ↦ rw (a, b) (added p r)
    ]
  ]

  pub remove-Every : (k : K) {m : List (K × V)} → Every P m → Every P (remove less k m)
  unfolding remove
  remove-Every k empty = empty
  remove-Every k {m = (j, w) ∷ m} (added q r) = elim (Bool-cases (same_key less k j)) [
    | inl a ↦ rw a r
    | inr a ↦ rw a (added q (remove-Every k r))
  ]

  pub get-Every : (k : K) {m : List (K × V)} → Every P m → OfFound P (get less k m)
  unfolding get
  get-Every k empty = nothing
  get-Every k {m = (j, w) ∷ m} (added q r) = elim (Bool-cases (same_key less k j)) [
    | inl a ↦ rw a (found w q)
    | inr a ↦ rw a (get-Every k r)
  ]

module _ {K V : Type 0} (less : K → K → Bool) where
  -- What has been inserted is found.
  pub get-insert :
      (k : K) (v : V) (m : List (K × V))
      → less k k ≡ false
      → get less k (insert less k v m) ≡ some v
  unfolding get insert
  get-insert k v [] h = rw h refl
  get-insert k v ((j, w) ∷ m) h = elim (Bool-cases (less k j)) [
    | inl a ↦ rw (a, h) refl
    | inr a ↦ elim (Bool-cases (less j k)) [
      | inl b ↦ rw (a, b) (rw (a, b) (get-insert k v m h))
      | inr b ↦ rw (a, b, h) refl
    ]
  ]
