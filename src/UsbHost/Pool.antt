-- ===== src/UsbHost/Pool.antt =====
-- cotton-usb-host/src/async_pool.rs: N equivalent resources, shared out one at a time. A waker is
-- known by the task that it wakes, of any type `W`.
pub mod Laws
pub mod Ownership
mod Tests
use cotton.Prelude.{ℕ, Bool, Option, none, some, ltb, leb, if◌then◌else◌}
use cotton.Prelude.Outcome.{Outcome, returns, panics, assert, ◌>>=◌, ◌>>◌}
use cotton.UsbHost.BitSet
use cotton.UsbHost.BitSet.{BitSet}

pub record Pool (W : Type 0) : Type 0 where
  pub total : ℕ
  pub allocated : BitSet
  pub waker : Option W

unfoldable pub new : {W : Type 0} → ℕ → Outcome (Pool W)
new total = do
  assert (leb total 32)
  returns (record { total = total; allocated = BitSet.new; waker = none })

-- Where `set_any` finds no room among all 32 or within `total`, the cell keeps the old set.
abbrev pub take_bit : {W : Type 0} → Pool W → Option ℕ × BitSet → Option ℕ × Pool W
take_bit p (none, bits) = (none, p)
take_bit p (some n, bits) =
    if leb p.total n then (none, p) else (some n, record p { allocated = bits })

unfoldable pub alloc_internal : {W : Type 0} → Pool W → Outcome (Option ℕ × Pool W)
alloc_internal p = do r ← BitSet.set_any p.allocated; returns (take_bit p r)

-- The debug build, which checks the `debug_assert!`. The first part is the task that is woken.
unfoldable pub dealloc_internal : {W : Type 0} → Pool W → ℕ → Outcome (Option W × Pool W)
dealloc_internal p n = do
  held ← BitSet.contains p.allocated n
  assert held
  bits ← BitSet.clear p.allocated n
  returns (p.waker, record p { allocated = bits; waker = none })

-- `PoolFuture::poll`; `none` is `Poll::Pending`.
unfoldable pub poll : {W : Type 0} → Pool W → W → Outcome (Option ℕ × Pool W)
poll p w = alloc_internal (record p { waker = some w })

unfoldable pub try_alloc : {W : Type 0} → Pool W → Outcome (Option ℕ × Pool W)
try_alloc p = alloc_internal p
