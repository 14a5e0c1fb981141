-- ===== src/Netif/Flags.antt =====
-- cotton-netif/src/getifaddrs.rs and linux_netlink.rs: the flags of the operating system in the terms of
-- cotton-netif.
use cotton.Prelude.{
  ℕ, ◌≡◌, refl, sym, ◌∙◌, Bool, true, false, not, ◌&&◌, List, [], ◌∷◌, if◌then◌else◌, arith,
}
use cotton.Netif.{up, running, loopback, pointtopoint, broadcast, multicast, contains, union}

-- The flags that are asked for, of those that the operating system has.
pub data Iff : Type 0 where
  iff_up iff_running iff_loopback iff_pointopoint iff_broadcast iff_multicast : Iff

abbrev pub flag_of : Iff → ℕ
flag_of iff_up = up
flag_of iff_running = running
flag_of iff_loopback = loopback
flag_of iff_pointopoint = pointtopoint
flag_of iff_broadcast = broadcast
flag_of iff_multicast = multicast

-- The array of the loop, in its order.
abbrev pub table : List (Iff × ℕ)
table =
    (iff_up, up)
    ∷ (iff_running, running)
    ∷ (iff_loopback, loopback)
    ∷ (iff_pointopoint, pointtopoint)
    ∷ (iff_broadcast, broadcast)
    ∷ (iff_multicast, multicast)
    ∷ []

abbrev pub add_flags : (Iff → Bool) → List (Iff × ℕ) → ℕ → ℕ
add_flags has [] newflags = newflags
add_flags has ((iff, newf) ∷ rest) newflags =
    add_flags has rest (if has iff then union newflags newf else newflags)

unfoldable pub map_interface_flags : (Iff → Bool) → ℕ
map_interface_flags has = add_flags has table 0

-- A test of all values, and what it tells of each.
abbrev all_bools : (Bool → Bool) → Bool
all_bools p = p true && p false

both : (s t : Bool) → (s && t) ≡ true → (s ≡ true) × (t ≡ true)
both true true h = (refl, refl)
both true false h = absurd (ground arith)
both false t h = absurd (ground arith)

each_bool : (p : Bool → Bool) → all_bools p ≡ true → (b : Bool) → p b ≡ true
each_bool p h true = (both (p true) (p false) h).0
each_bool p h false = (both (p true) (p false) h).1

abbrev agree : Bool → Bool → Bool
agree true b = b
agree false b = not b

agree_lem : (a b : Bool) → agree a b ≡ true → a ≡ b
agree_lem true b h = sym h
agree_lem false true h = ground arith
agree_lem false false h = refl

abbrev pick : Bool → Bool → Bool → Bool → Bool → Bool → Iff → Bool
pick a b c d e f iff_up = a
pick a b c d e f iff_running = b
pick a b c d e f iff_loopback = c
pick a b c d e f iff_pointopoint = d
pick a b c d e f iff_broadcast = e
pick a b c d e f iff_multicast = f

abbrev right : Iff → Bool → Bool → Bool → Bool → Bool → Bool → Bool
right iff a b c d e f =
    agree (contains (add_flags (pick a b c d e f) table 0) (flag_of iff)) (pick a b c d e f iff)

abbrev always : Iff → Bool
always iff = all_bools (λ a.
    all_bools
      (λ b. all_bools (λ c. all_bools (λ d. all_bools (λ e. all_bools (right iff a b c d e))))))

always_right : (iff : Iff) → always iff ≡ true
unfolding contains
always_right iff_up = refl
always_right iff_running = refl
always_right iff_loopback = refl
always_right iff_pointopoint = refl
always_right iff_broadcast = refl
always_right iff_multicast = refl

right_lem : (iff : Iff) (a b c d e f : Bool) → right iff a b c d e f ≡ true
right_lem iff a b c d e f =
    each_bool (right iff a b c d e)
      (each_bool (λ e. all_bools (right iff a b c d e))
        (each_bool (λ d. all_bools (λ e. all_bools (right iff a b c d e)))
          (each_bool (λ c. all_bools (λ d. all_bools (λ e. all_bools (right iff a b c d e))))
            (each_bool
              (λ b.
                all_bools (λ c. all_bools (λ d. all_bools (λ e. all_bools (right iff a b c d e)))))
              (each_bool
                (λ a. all_bools (λ b.
                  all_bools
                    (λ c. all_bools (λ d. all_bools (λ e. all_bools (right iff a b c d e))))))
                (always_right iff) a)
              b)
            c)
          d)
        e)
      f

pick_lem :
    (has : Iff → Bool) (iff : Iff)
    → pick
        (has iff_up)
        (has iff_running)
        (has iff_loopback)
        (has iff_pointopoint)
        (has iff_broadcast)
        (has iff_multicast)
        iff
      ≡ has iff
pick_lem has iff_up = refl
pick_lem has iff_running = refl
pick_lem has iff_loopback = refl
pick_lem has iff_pointopoint = refl
pick_lem has iff_broadcast = refl
pick_lem has iff_multicast = refl

-- For each of the six flags, the flags that are made from those of the operating system contain it if
-- and only if the operating system has it set.
pub contains-map_interface_flags :
    (has : Iff → Bool) (iff : Iff) → contains (map_interface_flags has) (flag_of iff) ≡ has iff
unfolding map_interface_flags
contains-map_interface_flags has iff =
    agree_lem _ _ (
      right_lem iff (has iff_up) (has iff_running) (has iff_loopback) (has iff_pointopoint)
        (has iff_broadcast) (has iff_multicast))
    ∙ pick_lem has iff
