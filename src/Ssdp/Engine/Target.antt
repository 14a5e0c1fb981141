-- ===== src/Ssdp/Engine/Target.antt =====
-- cotton-ssdp/src/engine.rs: which resources a search means.
use cotton.Prelude.{ℕ, ◌^◌, Bool, true, false, Option, none, some, leb, if◌then◌else◌}
use cotton.Prelude.Bytes.{Bytes, codes}
use cotton.Ssdp.Text.{same, rsplit_once, parse_below}

-- A `usize` has 64 bits.
abbrev pub usize_bound : ℕ
usize_bound = 2 ^ 64

abbrev at_least : Option ℕ → Option ℕ → Bool
at_least (some sversion) (some cversion) = leb sversion cversion
at_least (some sversion) none = false
at_least none cversion = false

-- The UPnP Device Architecture 1.0, 1.2.3: a later version will do.
abbrev pub same_or_later : Option (Bytes × Bytes) → Option (Bytes × Bytes) → Bool
same_or_later none c = false
same_or_later (some s) none = false
same_or_later (some (sbase, sversion)) (some (cbase, cversion)) =
    if same sbase cbase
    then at_least (parse_below usize_bound sversion) (parse_below usize_bound cversion)
    else false

unfoldable pub target_match : Bytes → Bytes → Bool
target_match search candidate =
    if same search (codes "ssdp:all")
    then true
    else if same search candidate
    then true
    else same_or_later (rsplit_once b':' search) (rsplit_once b':' candidate)
