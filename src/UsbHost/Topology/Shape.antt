-- ===== src/UsbHost/Topology/Shape.antt =====
-- cotton-usb-host/src/topology.rs: the well-formed tables, and what a table says of the bus.
use cotton.Prelude.{
  ℕ, ◌<◌, ◌≡◌, refl, ◌≢◌, length, get_or, arith, get_elem?-get_or, ltb, get_or-replicate,
  Bool-cases, inl, inr, get_or_beyond,
}
use cotton.UsbHost.Topology.{Topology, new, is_present}

-- The entry of a device.
abbrev pub at : Topology → ℕ → ℕ
at t i = get_or t.parent i 0

-- 32 entries of a byte, no device at address 0, and no two devices on one port.
pub record IsValid (t : Topology) : Type 0 where
  pub size : length t.parent ≡ 32
  pub bytes : (i : ℕ) → at t i < 256
  pub no_zero : at t 0 ≡ 0
  pub apart : (i j : ℕ) → at t i ≢ 0 → at t i ≡ at t j → i ≡ j

pub new-IsValid : IsValid new
unfolding new
new-IsValid = record {
  size = refl;
  bytes = λ i. ground (arith, get_or-replicate {A = ℕ} 32 i 0);
  no_zero = refl;
  apart = λ i j h. absurd (h (get_or-replicate {A = ℕ} 32 i 0));
}

pub is_present_lem : (t : Topology) (i : ℕ) → IsValid t → i < 32 → is_present t i ≡ ltb 0 (at t i)
unfolding is_present
is_present_lem t i v h =
    let l = v.size in rw (is_present, get_elem?-get_or t.parent i 0 (omega arith))

pub present-lt : (t : Topology) (i : ℕ) → IsValid t → at t i ≢ 0 → i < 32
present-lt t i v n = elim (Bool-cases (ltb i 32)) [
  | inl q ↦ ground arith
  | inr q ↦ absurd (n (get_or_beyond t.parent i 0 (ground (arith, v.size))))
]
