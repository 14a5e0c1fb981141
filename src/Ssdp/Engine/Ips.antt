-- ===== src/Ssdp/Engine/Ips.antt =====
-- cotton-ssdp/src/engine.rs: the list of the addresses of an interface, and swap_remove.
use cotton.Prelude.{
  ℕ, zero, suc, ◌≡◌, refl, sym, ap, subst, ◌∙◌, Bool, true, false, not, ◌&&◌, ◌||◌, Bool-cases, inl,
  inr, Option, none, some, List, [], ◌∷◌, ◌++◌, arith,
}
use cotton.Ssdp.Engine.Network.{holds, position, all_but_last, last_of, swap_remove}

-- What the engine relies on in `==` of the addresses.
pub record IsEq {A : Type 0} (same_ip : A → A → Bool) : Type 0 where
  pub itself : (a : A) → same_ip a a ≡ true
  pub sound : (a b : A) → same_ip a b ≡ true → a ≡ b

module _ {A : Type 0} (same_ip : A → A → Bool) where
  -- No address stands twice.
  pub data Distinct : List A → Type 0 where
    empty : Distinct []
    added : {a : A} {ips : List A} → holds same_ip a ips ≡ false → Distinct ips → Distinct (a ∷ ips)

  -- The first place of an address.
  pub data At (addr : A) : List A → ℕ → Type 0 where
    here : {a : A} {ips : List A} → same_ip a addr ≡ true → At addr (a ∷ ips) zero
    there :
        {a : A} {ips : List A} {n : ℕ}
        → same_ip a addr ≡ false
        → At addr ips n
        → At addr (a ∷ ips) (suc n)

  pub data Finds (addr : A) (ips : List A) : Option ℕ → Type 0 where
    missing : holds same_ip addr ips ≡ false → Finds addr ips none
    found : (n : ℕ) → At addr ips n → Finds addr ips (some n)

  after-Finds :
      (addr a : A) (ips : List A) (r : Option ℕ)
      → same_ip a addr ≡ false
      → Finds addr ips r
      → Finds addr (a ∷ ips) (elim r [ none ↦ none | some n ↦ some (suc n) ])
  unfolding holds
  after-Finds addr a ips r q (missing h) = missing (rw (q, h) refl)
  after-Finds addr a ips r q (found n at) = found (suc n) (there q at)

  pub position-Finds : (addr : A) (ips : List A) → Finds addr ips (position same_ip addr ips)
  unfolding position holds
  position-Finds addr [] = missing refl
  position-Finds addr (a ∷ ips) = elim (Bool-cases (same_ip a addr)) [
    | inl q ↦ rw q (found 0 (here q))
    | inr q ↦ rw q (after-Finds addr a ips _ q (position-Finds addr ips))
  ]

  pub holds_push :
      (b addr : A) (ips : List A)
      → holds same_ip b (ips ++ addr ∷ []) ≡ (holds same_ip b ips || same_ip addr b)
  unfolding holds
  holds_push b addr [] = ground arith
  holds_push b addr (a ∷ ips) = ground (arith, holds_push b addr ips)

module _ {A : Type 0} {same_ip : A → A → Bool} (eq : IsEq same_ip) where
  pub same_ip_swap : (a b : A) → same_ip a b ≡ false → same_ip b a ≡ false
  same_ip_swap a b h = elim (Bool-cases (same_ip b a)) [
    | inl q ↦ ground (arith, eq.itself a, subst (λ x. same_ip a x ≡ false) (eq.sound b a q) h)
    | inr q ↦ q
  ]

  holds_last :
      (b a : A) (ips : List A)
      → holds same_ip b (a ∷ ips)
        ≡ (same_ip (last_of a ips) b || holds same_ip b (all_but_last (a ∷ ips)))
  unfolding holds
  holds_last b a [] = refl
  holds_last b a (c ∷ ips) = let e = holds_last b c ips in ground (arith, e)

  distinct_last :
      (a : A) (ips : List A)
      → Distinct same_ip (a ∷ ips)
      → (holds same_ip (last_of a ips) (all_but_last (a ∷ ips)) ≡ false)
        × Distinct same_ip (all_but_last (a ∷ ips))
  unfolding holds
  distinct_last a [] d = (refl, empty)
  distinct_last a (c ∷ ips) (added h d) =
      let (e, d') = distinct_last c ips d in
      let p = same_ip_swap (last_of c ips) a (ground (arith, holds_last a c ips)) in
      (ground arith, added (ground (arith, holds_last a c ips)) d')

  skips :
      (a b : A) (ips : List A)
      → holds same_ip a ips ≡ false
      → holds same_ip b ips ≡ (not (same_ip a b) && (same_ip a b || holds same_ip b ips))
  skips a b ips h = elim (Bool-cases (same_ip a b)) [
    | inl q ↦ rw q (subst (λ x. holds same_ip x ips ≡ false) (eq.sound a b q) h)
    | inr q ↦ rw q refl
  ]

  keeps :
      (a addr b : A) (rest : Bool)
      → same_ip a addr ≡ false
      → (same_ip a b || (not (same_ip addr b) && rest))
        ≡ (not (same_ip addr b) && (same_ip a b || rest))
  keeps a addr b rest h = elim (Bool-cases (same_ip a b)) [
    | inl q ↦
        rw (q, subst (λ x. same_ip addr x ≡ false) (eq.sound a b q) (same_ip_swap a addr h)) refl
    | inr q ↦ rw q refl
  ]

  -- Without the first place of an address, the list has all the others, and none twice.
  pub swap_remove_lem :
      {addr : A} {ips : List A} {n : ℕ}
      → At same_ip addr ips n
      → Distinct same_ip ips
      → Distinct same_ip (swap_remove n ips)
        × ((b : A)
            → holds same_ip b (swap_remove n ips) ≡ (not (same_ip addr b) && holds same_ip b ips))
  unfolding holds swap_remove
  swap_remove_lem {ips = []} at d = elim at [ ]
  swap_remove_lem {addr = addr} {ips = a ∷ []} (here q) d =
      (empty, λ b. ground (arith, ap (λ x. same_ip x b) (eq.sound a addr q)))
  swap_remove_lem {addr = addr} {ips = a ∷ c ∷ ips} (here q) (added h d) =
      let (e, d') = distinct_last c ips d in
      (
        added e d',
        λ b.
            sym (holds_last b c ips)
            ∙ skips a b (c ∷ ips) h
            ∙ ap (λ x. not (same_ip x b) && holds same_ip b (a ∷ c ∷ ips)) (eq.sound a addr q),
      )
  swap_remove_lem {addr = addr} {ips = a ∷ ips} (there q at) (added h d) =
      let (d', same) = swap_remove_lem at d in
      (
        added (same a ∙ ground arith) d',
        λ b. ap (λ x. same_ip a b || x) (same b) ∙ keeps a addr b (holds same_ip b ips) q,
      )

  pub distinct_push :
      (addr : A) {ips : List A}
      → holds same_ip addr ips ≡ false
      → Distinct same_ip ips
      → Distinct same_ip (ips ++ addr ∷ [])
  unfolding holds
  distinct_push addr h empty = added refl empty
  distinct_push addr {ips = a ∷ ips} h (added g d) =
      added (ground (arith, holds_push same_ip a addr ips, same_ip_swap a addr (ground arith)))
        (distinct_push addr (ground arith) d)
