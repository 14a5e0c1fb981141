-- ===== src/Ssdp/RefreshTimer.antt =====
-- cotton-ssdp/src/refresh_timer.rs: when the next salvo of notifications is due.
pub mod Schedule
mod Tests
use cotton.Prelude.{
  ℕ, zero, suc, ◌+◌, ◌*◌, ◌/◌, ◌%◌, ◌^◌, Bool, true, false, ◌==◌, if◌then◌else◌, bit_and,
}

-- `trait Timebase`, for an instant of type `I`: its order, and `+=` with a span in milliseconds.
pub record Timebase (I : Type 0) : Type 0 where
  pub is_before : I → I → Bool
  pub add_millis : I → ℕ → I

pub record RefreshTimer (I : Type 0) : Type 0 where
  pub random_seed : ℕ
  pub next_salvo : I
  pub phase : ℕ

-- `random_offset`, and the period that it is added to
unfoldable pub period_msec : ℕ → ℕ → ℕ
period_msec random_seed phase =
    let random_offset = bit_and (random_seed / 2 ^ (phase * 8)) 255 * 10 in
    (if phase == 3 then 800_000 else 6_000) + random_offset

module _ {I : Type 0} (base : Timebase I) where
  unfoldable pub new : ℕ → I → RefreshTimer I
  new random_seed now = record { random_seed = random_seed; next_salvo = now; phase = 0 }

  unfoldable pub reset : I → RefreshTimer I → RefreshTimer I
  reset now timer = record timer { next_salvo = now; phase = 0 }

  unfoldable pub next_refresh : RefreshTimer I → I
  next_refresh timer = timer.next_salvo

  unfoldable pub update_refresh : I → RefreshTimer I → RefreshTimer I
  update_refresh now timer = if base.is_before now timer.next_salvo then timer else record timer {
    next_salvo = base.add_millis timer.next_salvo (period_msec timer.random_seed timer.phase);
    phase = (timer.phase + 1) % 4;
  }
