-- ===== src/Ssdp/Engine/Samples.antt =====
-- Small sockets, addresses and clocks on which cotton-ssdp/src/engine.rs and service.rs are run.
use cotton.Prelude.{ℕ, ◌+◌, List, [], ◌∷◌, ◌++◌, ltb, ◌==◌, if◌then◌else◌, arith}
use cotton.Prelude.Result.{ok, err}
use cotton.Ssdp.RefreshTimer.{Timebase}
use cotton.Ssdp.RefreshTimer.Schedule.{IsTimebase}
use cotton.Ssdp.Udp.{Addresses, Multicast}
use cotton.Ssdp.Engine.Events.{Notification}
use cotton.Ssdp.Engine.Waking.{IsOrder}
use cotton.Ssdp.Engine.Ips.{IsEq}

-- Addresses are numbers, the small ones those of IPv4; a packet goes to a list of all that was sent.
abbrev pub numbers : Addresses ℕ ℕ
numbers = record {
  is_ipv4 = λ a. ltb a 100;
  same_ip = λ a b. a == b;
  same_socket = λ a b. a == b;
  to_string = λ a. (b'0' + a) ∷ [];
  group_ip = 90;
  group_socket = 1900;
}

pub numbers-IsEq : IsEq (λ (a : ℕ) (b : ℕ). a == b)
numbers-IsEq = record { itself = λ a. ground arith; sound = λ a b h. ground arith }

-- The network has no room for interface 9.
abbrev pub groups : Multicast ℕ ℕ (List ℕ)
groups = record {
  join_multicast_group = λ a ix m. if ix == 9 then (err 12, m) else (ok tt, ix ∷ m);
  leave_multicast_group = λ a ix m. (ok tt, m);
}

abbrev pub millis : Timebase ℕ
millis = record { is_before = ltb; add_millis = λ t a. t + a }

pub millis-IsTimebase : IsTimebase millis
millis-IsTimebase = record { adds = λ t a b. omega arith; forward = λ t a h. ground arith }

pub millis-IsOrder : IsOrder millis
millis-IsOrder = record {
  one_way = λ s t h. ground arith;
  chain = λ s t u h g. ground arith;
  not_before = λ s t u h g. ground arith;
}

-- The subscribers of name `n` write down what they hear.
abbrev pub heard_by : ℕ → Notification → List (ℕ × Notification) → List (ℕ × Notification)
heard_by n note w = w ++ (n, note) ∷ []
