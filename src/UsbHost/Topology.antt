-- ===== src/UsbHost/Topology.antt =====
-- cotton-usb-host/src/topology.rs: which device hangs on which port of which hub.
pub mod Shape
pub mod Connect
pub mod Sweep
pub mod Disconnect
pub mod Rooted
mod Tests
use cotton.Prelude.{
  ℕ, zero, suc, ◌+◌, ◌-◌, ◌*◌, ◌/◌, ◌^◌, Bool, true, false, not, ◌&&◌, ◌||◌, Option, none, some,
  List, [], ◌∷◌, bit_and, bit_or, ◌==◌, ltb, leb, if◌then◌else◌, get_elem?, get_or, set, replicate,
}
use cotton.UsbHost.BitSet.{BitSet}

abbrev pub max_devices : ℕ
max_devices = 32

abbrev pub max_ports : ℕ
max_ports = 16

abbrev pub max_hubs : ℕ
max_hubs = 16

-- For each device the hub in the low 4 bits and its port in the high 4 bits; 0 where there is none.
pub record Topology : Type 0 where
  pub parent : List ℕ

unfoldable pub new : Topology
new = record { parent = replicate 32 0 }

unfoldable pub is_present : Topology → ℕ → Bool
is_present t device = elim (get_elem? t.parent device) [ none ↦ false | some x ↦ ltb 0 x ]

-- `iter().position(|e| *e == entry)`
unfoldable pub position : ℕ → ℕ → List ℕ → Option ℕ
position entry i [] = none
position entry i (e ∷ es) =
    let rest = position entry (suc i) es in if e == entry then some i else rest

-- `for i in first..` with `left` rounds to go: the first device that is not present
unfoldable pub first_free : Topology → ℕ → ℕ → Option ℕ
first_free t i zero = none
first_free t i (suc left) =
    let rest = first_free t (suc i) left in if is_present t i then rest else some i

-- `for i in (1..=last).rev()`
unfoldable pub last_free : Topology → ℕ → Option ℕ
last_free t zero = none
last_free t (suc i) =
    let rest = last_free t i in if is_present t (suc i) then rest else some (suc i)

abbrev pub occupy : Topology → ℕ → Option ℕ → Option ℕ × Topology
occupy t entry none = (none, t)
occupy t entry (some i) = (some i, record { parent = set t.parent i entry })

-- The entry fits a u8, since both parts are below 16.
unfoldable pub device_connect : Topology → ℕ → ℕ → Bool → Option ℕ × Topology
device_connect t parent_hub parent_port is_hub =
    if leb max_hubs parent_hub || leb max_ports parent_port
    then (none, t)
    else (let entry = parent_port * 2 ^ 4 + parent_hub in
        elim (position entry 0 t.parent) [
          | some i ↦ (some i, t)
          | none ↦ occupy t entry (if is_hub then first_free t 1 15 else last_free t 31)
        ])

-- The loop's variables: the bits collected so far, and the table.
pub record Loop : Type 0 where
  pub bitset : ℕ
  pub parent : List ℕ

abbrev drop_device : Loop → ℕ → Loop
drop_device s i = record { bitset = bit_or s.bitset (2 ^ i); parent = set s.parent i 0 }

-- The body of the inner loop, at device `i`.
unfoldable pub visit : ℕ → ℕ → ℕ → Loop → Loop
visit parent_hub parent_port i s =
    let entry = get_or s.parent i 0 in
    if entry == 0
    then s
    else (let hub = bit_and entry 15 in
        let port = entry / 2 ^ 4 in
        let s' = if hub == parent_hub && port == parent_port then drop_device s i else s in
        if bit_and s'.bitset (2 ^ hub) == 0 then s' else drop_device s' i)

-- `for i in 0..MAX_DEVICES`, at `i` with `left` rounds to go.
unfoldable pub sweep : ℕ → ℕ → ℕ → ℕ → Loop → Loop
sweep hub port i zero s = s
sweep hub port i (suc left) s = sweep hub port (suc i) left (visit hub port i s)

-- `loop { … if old_bitset == bitset { break; } }`; `none` if the fuel runs out.
unfoldable pub settle : ℕ → ℕ → ℕ → Loop → Option Loop
settle zero hub port s = none
settle (suc fuel) hub port s =
    let s' = sweep hub port 0 max_devices s in
    let rest = settle fuel hub port s' in if s.bitset == s'.bitset then some s' else rest

-- 33 rounds are enough: each but the last clears one of 32 entries or more.
unfoldable pub device_disconnect : Topology → ℕ → ℕ → Option (BitSet × Topology)
device_disconnect t parent_hub parent_port =
    if leb max_hubs parent_hub || leb max_ports parent_port
    then some (record { bits = 0 }, t)
    else elim (settle 33 parent_hub parent_port (record { bitset = 0; parent = t.parent })) [
      | none ↦ none
      | some s ↦ some (record { bits = s.bitset }, record { parent = s.parent })
    ]
