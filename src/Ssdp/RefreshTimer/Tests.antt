-- ===== src/Ssdp/RefreshTimer/Tests.antt =====
-- cotton-ssdp/src/refresh_timer.rs on concrete inputs.
use cotton.Prelude.{ℕ, ◌+◌, ◌≡◌, refl, ltb, arith}
use cotton.Ssdp.RefreshTimer.{
  Timebase, RefreshTimer, period_msec, new, reset, next_refresh, update_refresh,
}
use cotton.Ssdp.RefreshTimer.Schedule.{IsTimebase, cycled, update_refresh_cycle}

-- Instants in milliseconds.
abbrev millis : Timebase ℕ
millis = record { is_before = ltb; add_millis = λ t a. t + a }

millis-IsTimebase : IsTimebase millis
millis-IsTimebase = record { adds = λ t a b. omega arith; forward = λ t a h. ground arith }

abbrev started : RefreshTimer ℕ
started = record { random_seed = 0x0403_0201; next_salvo = 100; phase = 0 }

reset-new : reset millis 100 (update_refresh millis 5 (new millis 0x0403_0201 5)) ≡ started
unfolding new reset update_refresh period_msec
reset-new = refl

update_refresh_cycle_example :
    update_refresh millis 1_000_000 (
      update_refresh millis 1_000_000
        (update_refresh millis 1_000_000 (update_refresh millis 100 started)))
    ≡ cycled millis started
unfolding update_refresh next_refresh period_msec
update_refresh_cycle_example =
    update_refresh_cycle millis millis-IsTimebase started 100 1_000_000 1_000_000 1_000_000
      (omega arith) refl refl refl refl
