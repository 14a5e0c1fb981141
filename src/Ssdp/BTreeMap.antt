-- ===== src/Ssdp/BTreeMap.antt =====
-- What cotton-ssdp uses of an ordered map: a list of keys and values in the order of the keys.
pub mod Laws
use cotton.Prelude.{
  ℕ, Bool, true, false, Option, none, some, List, [], ◌∷◌, map, ltb, ◌==◌, if◌then◌else◌,
}
use cotton.Prelude.Bytes.{Bytes}

-- The order of texts: that of their bytes.
abbrev pub text_less : Bytes → Bytes → Bool
text_less s [] = false
text_less [] (c ∷ t) = true
text_less (b ∷ s) (c ∷ t) = if b == c then text_less s t else ltb b c

abbrev pub values : {K V : Type 0} → List (K × V) → List V
values [] = []
values ((k, v) ∷ m) = v ∷ values m

-- Keys are the same if neither is less.
abbrev pub same_key : {K : Type 0} → (K → K → Bool) → K → K → Bool
same_key less j k = if less j k then false else if less k j then false else true

module _ {K V : Type 0} (less : K → K → Bool) where
  unfoldable pub get : K → List (K × V) → Option V
  get k [] = none
  get k ((j, v) ∷ m) = let rest = get k m in if same_key less k j then some v else rest

  unfoldable pub insert : K → V → List (K × V) → List (K × V)
  insert k v [] = (k, v) ∷ []
  insert k v ((j, w) ∷ m) =
      let rest = insert k v m in
      if less k j then (k, v) ∷ (j, w) ∷ m else if less j k then (j, w) ∷ rest else (k, v) ∷ m

  unfoldable pub remove : K → List (K × V) → List (K × V)
  remove k [] = []
  remove k ((j, w) ∷ m) = let rest = remove k m in if same_key less k j then m else (j, w) ∷ rest
