-- ===== src/Ssdp/Udp.antt =====
-- cotton-ssdp/src/udp.rs: the sockets that the engine is given, and the addresses that they use.
use cotton.Prelude.{ℕ, Bool}
use cotton.Prelude.Bytes.{Bytes}
use cotton.Prelude.Result.{Result}

-- The types of addresses of the crate no_std_net, `A` for IpAddr and `S` for SocketAddr.
pub record Addresses (A S : Type 0) : Type 0 where
  pub is_ipv4 : A → Bool
  pub same_ip : A → A → Bool
  pub same_socket : S → S → Bool
  pub to_string : A → Bytes
  pub group_ip : A
  pub group_socket : S

-- `trait TargetedSend`, for a socket in state `K`. The function fills a buffer of the given size and
-- returns how much of it is to go out. The engine drops the result of a call.
pub record TargetedSend (A S K : Type 0) : Type 0 where
  pub send_with : ℕ → S → A → (Bytes → ℕ × Bytes) → K → K

-- `trait Multicast`, for a state `M` and errors of type `E`
pub record Multicast (A E M : Type 0) : Type 0 where
  pub join_multicast_group : A → ℕ → M → Result E (Unit {0}) × M
  pub leave_multicast_group : A → ℕ → M → Result E (Unit {0}) × M
