-- ===== src/UsbHost/Wire.antt =====
-- cotton-usb-host/src/wire.rs: USB descriptors, and the parser that hands them to a visitor. The
-- bytes of a descriptor are a packed struct, so `bytemuck::try_from_bytes` succeeds exactly on a
-- slice of its size.
pub mod Descriptors
pub mod Bounds
pub mod Expected
pub mod Parse
mod Tests
use cotton.Prelude.{
  ℕ, zero, suc, ◌+◌, Bool, true, false, ◌&&◌, ◌||◌, Option, none, some, List, [], ◌∷◌, length,
  get_elem?, take, drop, ◌==◌, ltb, leb, if◌then◌else◌,
}
use cotton.Prelude.Bytes.{Bytes}
use cotton.Prelude.Outcome.{Outcome, returns, panics, ◌>>=◌, ◌>>◌}
use Descriptors.{ConfigurationDescriptor, InterfaceDescriptor, EndpointDescriptor}
use Descriptors.{configuration_from_bytes, interface_from_bytes, endpoint_from_bytes}
use Descriptors.{configuration_descriptor, interface_descriptor, endpoint_descriptor}

-- `trait DescriptorVisitor`, for a visitor of type `V`
pub record DescriptorVisitor (V : Type 0) : Type 0 where
  pub on_configuration : ConfigurationDescriptor → V → V
  pub on_interface : InterfaceDescriptor → V → V
  pub on_endpoint : EndpointDescriptor → V → V
  pub on_other : Bytes → V → V

-- `buf[i]`
abbrev pub index_at : Bytes → ℕ → Outcome ℕ
index_at buf i = elim (get_elem? buf i) [ none ↦ panics | some b ↦ returns b ]

-- `&buf[from..to]`, given the length
abbrev pub slice_at : Bytes → ℕ → ℕ → Outcome Bytes
slice_at buf from len =
    if leb (from + len) (length buf) then returns (take len (drop from buf)) else panics

module _ {V : Type 0} (visitor : DescriptorVisitor V) where
  open visitor use {on_configuration, on_interface, on_endpoint, on_other}

  visit_ok : {D : Type 0} → (D → V → V) → Option D → V → V
  visit_ok f none v = v
  visit_ok f (some d) v = f d v

  -- The `match dtype` of the loop.
  unfoldable pub visit : ℕ → Bytes → V → V
  unfolding visit_ok
  visit dtype slice v =
      if dtype == configuration_descriptor
      then visit_ok on_configuration (configuration_from_bytes slice) v
      else if dtype == interface_descriptor
      then visit_ok on_interface (interface_from_bytes slice) v
      else if dtype == endpoint_descriptor
      then visit_ok on_endpoint (endpoint_from_bytes slice) v
      else on_other slice v

  -- `while buf.len() > index + 2`; the inner `none` is a loop that runs out of fuel.
  unfoldable pub parse_from : ℕ → Bytes → ℕ → V → Outcome (Option V)
  parse_from zero buf index v = returns none
  parse_from (suc fuel) buf index v =
      let body = (do
        dlen ← index_at buf index
        dtype ← index_at buf (index + 1)
        let rest = (do
          slice ← slice_at buf index dlen
          parse_from fuel buf (index + dlen) (visit dtype slice v))
        if ltb dlen 2 || ltb (length buf) (index + dlen) then returns (some v) else rest) in
      if ltb (index + 2) (length buf) then body else returns (some v)

  -- A round takes two bytes at least, so the length is more than enough.
  unfoldable pub parse_descriptors : Bytes → V → Outcome (Option V)
  parse_descriptors buf v = parse_from (suc (length buf)) buf 0 v
