-- ===== src/UsbHost/Topology/Connect.antt =====
-- cotton-usb-host/src/topology.rs: which address `device_connect` gives, and what it keeps.
use cotton.Prelude.{
  ℕ, zero, suc, ◌+◌, ◌*◌, ◌^◌, ◌≤◌, ◌<◌, ◌≡◌, refl, ◌∙◌, ap, ◌≢◌, ◌⊎◌, inl, inr, length, get_or,
  set, arith, Bool, true, false, ◌||◌, Option, some, none, List, [], ◌∷◌, leb, ◌==◌, if◌then◌else◌,
  Bool-cases, length-set, get_or-set_self, get_or-set_ne,
}
use cotton.UsbHost.Topology.{
  Topology, occupy, position, first_free, last_free, is_present, device_connect, max_hubs,
  max_ports,
}
use cotton.UsbHost.Topology.Shape.{at, IsValid, is_present_lem, present-lt}

-- The answers of a search for the first, or the last, number of a range with a property.
pub data FirstOf (P : ℕ → Type 0) (lo hi : ℕ) : Option ℕ → Type 0 where
  nothing : ((i : ℕ) → lo ≤ i → i < hi → ¬ P i) → FirstOf P lo hi none
  found :
      (i : ℕ)
      → lo ≤ i
      → i < hi
      → P i
      → ((j : ℕ) → lo ≤ j → j < i → ¬ P j)
      → FirstOf P lo hi (some i)

pub data LastOf (P : ℕ → Type 0) (lo hi : ℕ) : Option ℕ → Type 0 where
  nothing : ((i : ℕ) → lo ≤ i → i < hi → ¬ P i) → LastOf P lo hi none
  found :
      (i : ℕ) → lo ≤ i → i < hi → P i → ((j : ℕ) → i < j → j < hi → ¬ P j) → LastOf P lo hi (some i)

module _ (P : ℕ → Type 0) where
  not_from :
      (k : ℕ)
      → ¬ P k
      → (i : ℕ) → ((j : ℕ) → suc k ≤ j → j < i → ¬ P j)
      → (j : ℕ) → k ≤ j
      → j < i
      → ¬ P j
  not_from k n i f j a b = elim (Bool-cases (j == k)) [
    | inl q ↦ let r : j ≡ k = ground arith in rw r n
    | inr q ↦ f j (ground arith) b
  ]

  not_to :
      (k : ℕ)
      → ¬ P k
      → (i : ℕ) → ((j : ℕ) → i ≤ j → j < k → ¬ P j)
      → (j : ℕ) → i ≤ j
      → j < suc k
      → ¬ P j
  not_to k n i f j a b = elim (Bool-cases (j == k)) [
    | inl q ↦ let r : j ≡ k = ground arith in rw r n
    | inr q ↦ f j a (ground arith)
  ]

  FirstOf-skip : (k hi : ℕ) (o : Option ℕ) → ¬ P k → FirstOf P (suc k) hi o → FirstOf P k hi o
  FirstOf-skip k hi none n (nothing h) = nothing (not_from k n hi h)
  FirstOf-skip k hi (some i) n (found _ a b p h) = found i (omega arith) b p (not_from k n i h)

  LastOf-skip : (lo k : ℕ) (o : Option ℕ) → ¬ P k → LastOf P lo k o → LastOf P lo (suc k) o
  LastOf-skip lo k none n (nothing h) = nothing (not_to k n lo h)
  LastOf-skip lo k (some i) n (found _ a b p h) =
      found i a (omega arith) p (λ j c d. not_to k n (suc i) (λ m x y. h m x y) j c d)

position-FirstOf :
    (entry k hi : ℕ) (f : ℕ → ℕ) (es : List ℕ)
    → k + length es ≡ hi
    → ((j : ℕ) → get_or es j 0 ≡ f (k + j))
    → FirstOf (λ i. f i ≡ entry) k hi (position entry k es)
unfolding position
position-FirstOf entry k hi f [] l h = nothing (λ i a b. absurd (omega arith))
position-FirstOf entry k hi f (e ∷ es) l h =
    let here : e ≡ f k = h 0 ∙ ap f (omega arith) in
    elim (Bool-cases (e == entry)) [
      | inl q ↦
          rw (q, position)
            (found k (omega arith) (omega arith) (ground arith) (λ j a b. absurd (omega arith)))
      | inr q ↦
          rw (q, position)
            (FirstOf-skip (λ i. f i ≡ entry) k hi _ (λ p. ground arith)
              (position-FirstOf entry (suc k) hi f es (omega arith)
                (λ j. h (suc j) ∙ ap f (omega arith))))
    ]

module _ (t : Topology) (v : IsValid t) where
  -- Free for a new device.
  abbrev IsFree : ℕ → Type 0
  IsFree i = at t i ≡ 0

  first_free-FirstOf :
      (k left hi : ℕ) → k + left ≡ hi → hi ≤ 32 → FirstOf IsFree k hi (first_free t k left)
  unfolding first_free
  first_free-FirstOf k zero hi e l = nothing (λ i a b. absurd (omega arith))
  first_free-FirstOf k (suc left) hi e l = elim (Bool-cases (is_present t k)) [
    | inl q ↦
        rw (q, first_free)
          (FirstOf-skip IsFree k hi _ (ground (arith, is_present_lem t k v (omega arith)))
            (first_free-FirstOf (suc k) left hi (omega arith) l))
    | inr q ↦
        rw (q, first_free)
          (found k (omega arith) (omega arith) (ground (arith, is_present_lem t k v (omega arith)))
            (λ j a b. absurd (omega arith)))
  ]

  last_free-LastOf : (i : ℕ) → i < 32 → LastOf IsFree 1 (suc i) (last_free t i)
  unfolding last_free
  last_free-LastOf zero l = nothing (λ i a b. absurd (omega arith))
  last_free-LastOf (suc i) l = elim (Bool-cases (is_present t (suc i))) [
    | inl q ↦
        rw (q, last_free)
          (LastOf-skip IsFree 1 (suc i) _ (ground (arith, is_present_lem t (suc i) v l))
            (last_free-LastOf i (omega arith)))
    | inr q ↦
        rw (q, last_free)
          (found (suc i) (omega arith) (omega arith) (ground (arith, is_present_lem t (suc i) v l))
            (λ j a b. absurd (omega arith)))
  ]

-- The entry of a device on a port of a hub.
abbrev pub entry_of : ℕ → ℕ → ℕ
entry_of hub port = port * 2 ^ 4 + hub

-- Every way in which `device_connect` can end, with what holds of the table it was given.
pub data Connects (t : Topology) (hub port : ℕ) (is_hub : Bool) : Option ℕ × Topology → Type 0 where
  refused : (16 ≤ hub) ⊎ (16 ≤ port) → Connects t hub port is_hub (none, t)
  known :
      (i : ℕ)
      → hub < 16
      → port < 16
      → i < 32
      → at t i ≡ entry_of hub port
      → Connects t hub port is_hub (some i, t)
  given :
      (i : ℕ)
      → hub < 16
      → port < 16
      → ((j : ℕ) → j < 32 → at t j ≢ entry_of hub port)
      → 1 ≤ i
      → i < 32
      → at t i ≡ 0
      → (is_hub ≡ true → (i < 16) × ((j : ℕ) → 1 ≤ j → j < i → at t j ≢ 0))
      → (is_hub ≡ false → (j : ℕ) → i < j → j < 32 → at t j ≢ 0)
      → Connects t hub port is_hub (some i, record { parent = set t.parent i (entry_of hub port) })
  full :
      hub < 16
      → port < 16
      → ((j : ℕ) → j < 32 → at t j ≢ entry_of hub port)
      → (is_hub ≡ true → (j : ℕ) → 1 ≤ j → j < 16 → at t j ≢ 0)
      → (is_hub ≡ false → (j : ℕ) → 1 ≤ j → j < 32 → at t j ≢ 0)
      → Connects t hub port is_hub (none, t)

module _ (t : Topology) (v : IsValid t) (hub port : ℕ) (hub_fits : hub < 16)
    (port_fits : port < 16) where
  abbrev New : Type 0
  New = (j : ℕ) → j < 32 → at t j ≢ entry_of hub port

  given_hub :
      New
      → (o : Option ℕ) → FirstOf (IsFree t v) 1 16 o
      → Connects t hub port true (occupy t (entry_of hub port) o)
  given_hub new none (nothing h) = full hub_fits port_fits new (λ _. h) (λ e. cc)
  given_hub new (some i) (found _ a b free least) =
      given i hub_fits port_fits new a (omega arith) free (λ _. (b, least)) (λ e. cc)

  given_device :
      New
      → (o : Option ℕ) → LastOf (IsFree t v) 1 32 o
      → Connects t hub port false (occupy t (entry_of hub port) o)
  given_device new none (nothing h) = full hub_fits port_fits new (λ e. cc) (λ _. h)
  given_device new (some i) (found _ a b free last) =
      given i hub_fits port_fits new a b free (λ e. cc) (λ _. last)

  given_any :
      New
      → (is_hub : Bool)
      → Connects t hub port is_hub
          (occupy t (entry_of hub port) (if is_hub then first_free t 1 15 else last_free t 31))
  given_any new true = given_hub new _ (first_free-FirstOf t v 1 15 16 refl (omega arith))
  given_any new false = given_device new _ (last_free-LastOf t v 31 (omega arith))

  searched :
      (is_hub : Bool) (o : Option ℕ)
      → FirstOf (λ i. at t i ≡ entry_of hub port) 0 32 o
      → Connects t hub port is_hub (elim o [
        | some i ↦ (some i, t)
        | none ↦ occupy t (entry_of hub port) (if is_hub then first_free t 1 15 else last_free t 31)
      ])
  searched is_hub none (nothing h) = given_any (λ j l. h j (omega arith) l) is_hub
  searched is_hub (some i) (found _ a b e least) = known i hub_fits port_fits b e

-- On a well-formed table `device_connect` refuses a hub or port of 16 or more, gives a known place
-- its old address, and gives a new place the least free address from 1 to 15 if it is a hub and the
-- greatest free one from 1 to 31 if not; it says none only if there is no such address.
pub device_connect-Connects :
    (t : Topology)
    → IsValid t
    → (hub port : ℕ) (is_hub : Bool) → Connects t hub port is_hub (device_connect t hub port is_hub)
unfolding device_connect
device_connect-Connects t v hub port is_hub =
    elim (Bool-cases (leb max_hubs hub || leb max_ports port)) [
      | inl q ↦ rw q (refused (ground arith))
      | inr q ↦ rw q (
          searched t v hub port (ground arith) (ground arith) is_hub _ (
            position-FirstOf (entry_of hub port) 0 32 (at t) t.parent (omega (arith, v.size))
              (λ j. ap (at t) (omega arith))))
    ]

Connects-IsValid :
    (t : Topology) (hub port : ℕ) (is_hub : Bool) (r : Option ℕ × Topology)
    → IsValid t
    → Connects t hub port is_hub r
    → IsValid r.1
Connects-IsValid t hub port is_hub _ v (refused _) = v
Connects-IsValid t hub port is_hub _ v (known _ _ _ _ _) = v
Connects-IsValid t hub port is_hub _ v (full _ _ _ _ _) = v
Connects-IsValid t hub port is_hub _ v (given i h p new lo hi free _ _) = record {
  size = length-set t.parent i (entry_of hub port) ∙ v.size;
  bytes = λ j. ground (arith, stored j, v.bytes j);
  no_zero = ground (arith, stored 0, v.no_zero);
  apart = λ j k n e.
      ground
        (arith, stored j, stored k, v.apart j k, present-lt t j v, present-lt t k v, new j, new k);
}
  where
    stored :
        (j : ℕ)
        → get_or (set t.parent i (entry_of hub port)) j 0
          ≡ (if j == i then entry_of hub port else at t j)
    stored j = elim (Bool-cases (j == i)) [
      | inl q ↦
          let r : j ≡ i = ground arith in
          rw (q, r) (get_or-set_self t.parent i (entry_of hub port) 0 (omega (arith, v.size)))
      | inr q ↦ rw q (get_or-set_ne t.parent i j (entry_of hub port) 0 (ground arith))
    ]

-- `device_connect` keeps a well-formed table well-formed, for every hub and port.
pub device_connect-IsValid :
    (t : Topology) (hub port : ℕ) (is_hub : Bool)
    → IsValid t
    → IsValid (device_connect t hub port is_hub).1
device_connect-IsValid t hub port is_hub v =
    Connects-IsValid t hub port is_hub _ v (device_connect-Connects t v hub port is_hub)
