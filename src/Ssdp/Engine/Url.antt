-- ===== src/Ssdp/Engine/Url.antt =====
-- cotton-ssdp/src/engine.rs: the host of a location is the address that a message is sent from.
use cotton.Prelude.{ℕ, ◌+◌, Option, none, some, ◌++◌, take, drop, ltb, if◌then◌else◌}
use cotton.Prelude.Bytes.{Bytes, codes}
use cotton.Ssdp.Text.{find}

-- Behind the `://` at `prefix`: the offsets of a slash and of a colon, if there are.
abbrev pub with_path : Bytes → ℕ → Bytes → ℕ → Option ℕ → Bytes
with_path url prefix ip slash none = take (prefix + 3) url ++ (ip ++ drop (slash + prefix + 3) url)
with_path url prefix ip slash (some colon) =
    if ltb colon slash
    then take (prefix + 3) url ++ (ip ++ drop (colon + prefix + 3) url)
    else take (prefix + 3) url ++ (ip ++ drop (slash + prefix + 3) url)

abbrev pub with_host : Bytes → Bytes → ℕ → Option ℕ → Bytes
with_host url ip prefix none = take (prefix + 3) url ++ ip
with_host url ip prefix (some slash) =
    with_path url prefix ip slash (find (codes ":") (drop (prefix + 3) url))

-- The address comes as its text.
unfoldable pub rewrite_host : Bytes → Bytes → Bytes
rewrite_host url ip = elim (find (codes "://") url) [
  | none ↦ url
  | some prefix ↦ with_host url ip prefix (find (codes "/") (drop (prefix + 3) url))
]
