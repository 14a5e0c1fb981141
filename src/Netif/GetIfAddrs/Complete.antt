-- ===== src/Netif/GetIfAddrs/Complete.antt =====
-- cotton-netif/src/getifaddrs.rs: every interface of a snapshot that has an index is announced, with
-- its address.
use cotton.Prelude.{
  ℕ, zero, suc, ◌%◌, ◌^◌, ◌≡◌, refl, ap, true, false, Bool-cases, inl, inr, none, some,
  Option-cases, List, [], ◌∷◌, ◌++◌, ◌==◌, bit_and, if◌then◌else◌, arith,
}
use mathlib.Core.List.{Memᴰ}
use cotton.Netif.{NetworkEvent, new_link, new_addr}
use cotton.Netif.GetIfAddrs.{
  Nix, member, leading_ones, link_event, name_of, address_event, events_from, get_interfaces_inner2,
}
use cotton.Netif.GetIfAddrs.Order.{InOrder, events_from-InOrder}

-- The interface has been announced before, or is among the events.
pub data HasLink {A : Type 0} (known : List ℕ) (ix : ℕ) (events : List (NetworkEvent A))
    : Type 0 where
  before : member ix known ≡ true → HasLink known ix events
  link :
      (name : List ℕ) (flags : ℕ) → Memᴰ (new_link ix name flags) events → HasLink known ix events

module _ {D X A : Type 0} (nix : Nix D X A) where
  -- The address of an entry, with the length of its prefix, is among the events if it has one: an
  -- address of IPv4 or else of IPv6, and a netmask of the same kind.
  pub data HasAddress (d : D) (ix : ℕ) (events : List (NetworkEvent A)) : Type 0 where
    no_address : nix.address d ≡ none → HasAddress d ix events
    no_mask : nix.netmask d ≡ none → HasAddress d ix events
    address_4 :
        {a m : X} {ip : A} {mask : ℕ}
        → nix.address d ≡ some a
        → nix.netmask d ≡ some m
        → nix.ipv4 a ≡ some ip
        → nix.netmask4 m ≡ some mask
        → Memᴰ (new_addr ix ip (bit_and (leading_ones 32 mask) 0xFF % 2 ^ 8)) events
        → HasAddress d ix events
    no_mask_4 :
        {a m : X} {ip : A}
        → nix.address d ≡ some a
        → nix.netmask d ≡ some m
        → nix.ipv4 a ≡ some ip
        → nix.netmask4 m ≡ none
        → HasAddress d ix events
    address_6 :
        {a m : X} {ip : A} {mask : ℕ}
        → nix.address d ≡ some a
        → nix.netmask d ≡ some m
        → nix.ipv4 a ≡ none
        → nix.ipv6 a ≡ some ip
        → nix.netmask6 m ≡ some mask
        → Memᴰ (new_addr ix ip (bit_and (leading_ones 128 mask) 0xFF % 2 ^ 8)) events
        → HasAddress d ix events
    no_mask_6 :
        {a m : X} {ip : A}
        → nix.address d ≡ some a
        → nix.netmask d ≡ some m
        → nix.ipv4 a ≡ none
        → nix.ipv6 a ≡ some ip
        → nix.netmask6 m ≡ none
        → HasAddress d ix events
    other_kind :
        {a : X}
        → nix.address d ≡ some a
        → nix.ipv4 a ≡ none
        → nix.ipv6 a ≡ none
        → HasAddress d ix events

  -- An entry has no index, or index 0, or has been announced with its address.
  pub data IsReported (known : List ℕ) (d : D) (events : List (NetworkEvent A)) : Type 0 where
    no_index : nix.if_nametoindex (name_of nix d) ≡ none → IsReported known d events
    index_0 : nix.if_nametoindex (name_of nix d) ≡ some 0 → IsReported known d events
    reported :
        {ix : ℕ}
        → nix.if_nametoindex (name_of nix d) ≡ some ix
        → HasLink known ix events
        → HasAddress d ix events
        → IsReported known d events

  pub data AllReported (known : List ℕ) (events : List (NetworkEvent A)) : List D → Type 0 where
    no_entries : AllReported known events []
    entry :
        {d : D} {ds : List D}
        → IsReported known d events
        → AllReported known events ds
        → AllReported known events (d ∷ ds)

  -- More events, before and behind.
  Wider : List (NetworkEvent A) → List (NetworkEvent A) → Type 0
  Wider es fs = (e : NetworkEvent A) → Memᴰ e es → Memᴰ e fs

  address-Wider :
      {es fs : List (NetworkEvent A)} (d : D) (ix : ℕ)
      → Wider es fs
      → HasAddress d ix es
      → HasAddress d ix fs
  unfolding Wider
  address-Wider d ix w (no_address p) = no_address p
  address-Wider d ix w (no_mask p) = no_mask p
  address-Wider d ix w (address_4 p q r s m) = address_4 p q r s (w _ m)
  address-Wider d ix w (no_mask_4 p q r s) = no_mask_4 p q r s
  address-Wider d ix w (address_6 p q r s t m) = address_6 p q r s t (w _ m)
  address-Wider d ix w (no_mask_6 p q r s t) = no_mask_6 p q r s t
  address-Wider d ix w (other_kind p q r) = other_kind p q r

  -- What has been announced since is among the events too.
  all-Wider :
      {known seen : List ℕ} {es fs : List (NetworkEvent A)} {ds : List D}
      → Wider es fs
      → ((ix : ℕ) → member ix seen ≡ true → HasLink known ix fs)
      → AllReported seen es ds
      → AllReported known fs ds
  unfolding Wider
  all-Wider w known no_entries = no_entries
  all-Wider {known = known} {seen = seen} {es = es} {fs = fs} w older (entry {d} r rs) =
      entry (one r) (all-Wider w older rs)
    where
      linked : (ix : ℕ) → HasLink seen ix es → HasLink known ix fs
      linked ix (before p) = older ix p
      linked ix (link name flags m) = link name flags (w _ m)

      one : IsReported seen d es → IsReported known d fs
      one (no_index p) = no_index p
      one (index_0 p) = index_0 p
      one (reported p l a) = reported p (linked _ l) (address-Wider d _ w a)

  address-HasAddress :
      (d : D) (ix : ℕ) (rest : List (NetworkEvent A))
      → HasAddress d ix (address_event nix ix d ++ rest)
  address-HasAddress d ix rest = elim (Option-cases (nix.address d)) [
    | inl p ↦ no_address p
    | inr (a, p) ↦ elim (Option-cases (nix.netmask d)) [
      | inl q ↦ no_mask q
      | inr (m, q) ↦ elim (Option-cases (nix.ipv4 a)) [
        | inr (ip, r) ↦ elim (Option-cases (nix.netmask4 m)) [
          | inl s ↦ no_mask_4 p q r s
          | inr (mask, s) ↦ address_4 p q r s (rw (p, q, r, s) (Memᴰ.head refl))
        ]
        | inl r ↦ elim (Option-cases (nix.ipv6 a)) [
          | inl s ↦ other_kind p r s
          | inr (ip, s) ↦ elim (Option-cases (nix.netmask6 m)) [
            | inl t ↦ no_mask_6 p q r s t
            | inr (mask, t) ↦ address_6 p q r s t (rw (p, q, r, s, t) (Memᴰ.head refl))
          ]
        ]
      ]
    ]
  ]

  behind : (es fs : List (NetworkEvent A)) → Wider fs (es ++ fs)
  unfolding Wider
  behind [] fs e m = m
  behind (x ∷ es) fs e m = Memᴰ.tail (behind es fs e m)

  -- The round of an entry with the index `ix`, given what the other rounds report.
  interface-AllReported :
      (known : List ℕ) (ix : ℕ) (d : D) (ds : List D) (events : List (NetworkEvent A))
      → nix.if_nametoindex (name_of nix d) ≡ some ix
      → AllReported (if member ix known then known else ix ∷ known) events ds
      → AllReported known (link_event nix ix known d ++ (address_event nix ix d ++ events)) (d ∷ ds)
  unfolding Wider
  interface-AllReported known ix d ds events p h = elim (Bool-cases (member ix known)) [
    | inl q ↦ rw q (
        entry (reported p (before q) (address-HasAddress d ix events))
          (all-Wider (behind (address_event nix ix d) events) (λ j k. before k) (rw q at h)))
    | inr q ↦ rw q (
        entry
          (reported p (link _ _ (Memᴰ.head refl))
            (address-Wider d ix (λ e m. Memᴰ.tail m) (address-HasAddress d ix events)))
          (all-Wider (λ e m. Memᴰ.tail (behind (address_event nix ix d) events e m)) newest
            (rw q at h)))
  ]
    where
      newest :
          {name : List ℕ} {flags : ℕ} {es : List (NetworkEvent A)} (j : ℕ)
          → member j (ix ∷ known) ≡ true
          → HasLink known j (new_link ix name flags ∷ es)
      newest {name = name} {flags = flags} j k = elim (Bool-cases (j == ix)) [
        | inl same ↦
            let e : j ≡ ix = ground arith in
            link _ _ (Memᴰ.head (ap (λ (i : ℕ). new_link i name flags) e))
        | inr other ↦ before (rw other at k)
      ]

  events_from-AllReported :
      (known : List ℕ) (ds : List D) → AllReported known (events_from nix known ds) ds
  unfolding events_from
  events_from-AllReported known [] = no_entries
  events_from-AllReported known (d ∷ ds) =
      let rest = λ (seen : List ℕ). events_from-AllReported seen ds in
      elim (Option-cases (nix.if_nametoindex (name_of nix d))) [
        | inl p ↦ rw p (entry (no_index p) (rest known))
        | inr (zero, p) ↦ rw p (entry (index_0 p) (rest known))
        | inr (suc i, p) ↦
            let nonzero_index : (suc i == 0) ≡ false = ground arith in
            rw (p, nonzero_index) (interface-AllReported known (suc i) d ds _ p (rest _))
      ]

  -- The events of a snapshot: each entry whose interface has an index other than 0 has its interface
  -- announced, and its address with the length of its prefix, where it has an address and a netmask of
  -- one kind; each index is announced once, before any of its addresses; and there are no events that
  -- take an interface or an address away.
  pub get_interfaces_inner2-AllReported :
      (ds : List D)
      → InOrder [] (get_interfaces_inner2 nix ds) × AllReported [] (get_interfaces_inner2 nix ds) ds
  unfolding get_interfaces_inner2
  get_interfaces_inner2-AllReported ds =
      (events_from-InOrder nix [] ds, events_from-AllReported [] ds)
