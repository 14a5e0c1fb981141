-- ===== src/Ssdp/Engine/Hearing.antt =====
-- cotton-ssdp/src/engine.rs: what on_data does with each packet.
use cotton.Prelude.{
  ℕ, zero, suc, ◌+◌, ◌*◌, ◌%◌, ◌≤◌, ◌<◌, ◌≡◌, refl, min, Option, none, some, List, arith,
}
use native.Mathlib.Nat.{mod-lt}
use cotton.Prelude.Bytes.{Bytes}
use cotton.Prelude.Outcome.{Outcome, returns, panics}
use cotton.Prelude.Result.{Result, ok, err}
use cotton.Ssdp.Message.{Message, Error, parse}
use cotton.Ssdp.RefreshTimer.{Timebase}
use cotton.Ssdp.Udp.{Addresses}
use cotton.Ssdp.Engine.{ActiveAdvertisement, Engine}
use cotton.Ssdp.Engine.Reaching.{Tells, OwesAll, call_subscribers-Tells, schedule_all-OwesAll}
use cotton.Ssdp.Engine.Events.{
  Notification, alive, bye_bye, search_delay, on_message, on_parsed, on_data,
}

-- The notification that a message is to the subscribers, with the type it is about; a search is none.
abbrev pub news : Message → Option (Bytes × Notification)
news (Message.notify_alive nt usn location) = some (nt, alive nt usn location)
news (Message.notify_bye_bye nt usn) = some (nt, bye_bye nt usn)
news (Message.search search_target maximum_wait_sec) = none
news (Message.response st usn location) = some (st, alive st usn location)

pub delayed :
    (seed mx : ℕ) → search_delay seed (suc mx) ≡ returns (seed % min (suc mx * 1000) 5000 + 10)
unfolding search_delay
delayed seed mx = ground arith

positive : (mx : ℕ) → 0 < min (suc mx * 1000) 5000
positive mx = omega arith

in_time : (seed mx : ℕ) → seed % min (suc mx * 1000) 5000 + 10 < 10 + min (suc mx * 1000) 5000
in_time seed mx = omega (arith, mod-lt seed (positive mx))

module _ {A S I CB W : Type 0} (addrs : Addresses A S) (base : Timebase I)
    (on_notification : CB → Notification → W → W) where
  -- How a packet is taken.
  pub data Hears (e : Engine A S I CB) (wasto : A) (wasfrom : S) (now : I) (w : W)
      : Result Error Message → Outcome (Engine A S I CB × W) → Type 0 where
    ignored : (x : Error) → Hears e wasto wasfrom now w (err x) (returns (e, w))
    told :
        (m : Message) (type : Bytes) (n : Notification) (after : W)
        → news m ≡ some (type, n)
        → Tells on_notification type n e.active_searches w after
        → Hears e wasto wasfrom now w (ok m) (returns (e, after))
    scheduled :
        (search_target : Bytes) (maximum_wait_sec delay_ms : ℕ)
        (ads : List (Bytes × ActiveAdvertisement A S I))
        → 10 ≤ delay_ms
        → delay_ms < 10 + min (maximum_wait_sec * 1000) 5000
        → OwesAll addrs search_target
            (base.add_millis now delay_ms)
            wasfrom
            wasto
            e.advertisements
            ads
        → Hears e wasto wasfrom now w
            (ok (Message.search search_target maximum_wait_sec))
            (returns (record e { advertisements = ads }, w))
    search_panics :
        (search_target : Bytes)
        → Hears e wasto wasfrom now w (ok (Message.search search_target 0)) panics

  on_message-Hears :
      (e : Engine A S I CB) (wasto : A) (wasfrom : S) (now : I) (w : W) (m : Message)
      → Hears e wasto wasfrom now w
          (ok m)
          (on_message addrs base on_notification e wasto wasfrom now w m)
  unfolding search_delay
  on_message-Hears e wasto wasfrom now w (Message.notify_alive nt usn location) =
      told _ _ _ _ refl (call_subscribers-Tells on_notification e.active_searches _ w)
  on_message-Hears e wasto wasfrom now w (Message.notify_bye_bye nt usn) =
      told _ _ _ _ refl (call_subscribers-Tells on_notification e.active_searches _ w)
  on_message-Hears e wasto wasfrom now w (Message.search st zero) = search_panics st
  on_message-Hears e wasto wasfrom now w (Message.search st (suc mx)) =
      rw (delayed e.random_seed mx) (
        scheduled st (suc mx) (e.random_seed % min (suc mx * 1000) 5000 + 10) _ (omega arith)
          (in_time e.random_seed mx)
          (schedule_all-OwesAll addrs st _ wasfrom wasto e.advertisements))
  on_message-Hears e wasto wasfrom now w (Message.response st usn location) =
      told _ _ _ _ refl (call_subscribers-Tells on_notification e.active_searches _ w)

  on_parsed-Hears :
      (e : Engine A S I CB) (wasto : A) (wasfrom : S) (now : I) (w : W) (r : Result Error Message)
      → Hears e wasto wasfrom now w r (on_parsed addrs base on_notification e wasto wasfrom now w r)
  on_parsed-Hears e wasto wasfrom now w (ok m) = on_message-Hears e wasto wasfrom now w m
  on_parsed-Hears e wasto wasfrom now w (err x) = ignored x

  -- A packet that does not parse changes nothing. An announcement or a response leaves the engine as
  -- it is and calls, one after the other, the callbacks of just the searches that match its type. A
  -- search makes each advertisement that matches owe an answer at an instant that is 10 ms or more
  -- after now, and later than that by less than the time the searcher waits, 5 s at most: one to the
  -- searcher, but one to all if another searcher is owed one already; an answer that was owed keeps
  -- its time. And on_data panics if and only if a search has the waiting time 0.
  pub on_data-Hears :
      (e : Engine A S I CB) (buf : Bytes) (wasto : A) (wasfrom : S) (now : I) (w : W)
      → Hears e wasto wasfrom now w
          (parse buf)
          (on_data addrs base on_notification e buf wasto wasfrom now w)
  unfolding on_data
  on_data-Hears e buf wasto wasfrom now w = on_parsed-Hears e wasto wasfrom now w (parse buf)
