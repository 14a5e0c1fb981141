-- ===== src/Ssdp/Engine/Timeouts.antt =====
-- cotton-ssdp/src/engine.rs: what is done when the time has come, and when that is.
use cotton.Prelude.{ℕ, Bool, not, List, [], ◌∷◌, if◌then◌else◌}
use cotton.Prelude.Bytes.{Bytes}
use cotton.Ssdp.RefreshTimer as RefreshTimer
use cotton.Ssdp.RefreshTimer.{Timebase, RefreshTimer, next_refresh, update_refresh}
use cotton.Ssdp.Udp.{Addresses, TargetedSend}
use cotton.Ssdp.Engine.{
  Interface, ResponseNeeded, no_response, multicast, unicast, ActiveAdvertisement, Engine,
  notify_on_all, send_response, refresh,
}

module _ {I : Type 0} (base : Timebase I) where
  -- `now >= instant`
  abbrev pub is_due : I → I → Bool
  is_due now at = not (base.is_before now at)

  -- `Ord::min`
  abbrev pub min_of : I → I → I
  min_of a b = if base.is_before b a then b else a

module _ {A S I : Type 0} (base : Timebase I) where
  abbrev pub wake_for : I → ResponseNeeded A S I → I
  wake_for next_wake no_response = next_wake
  wake_for next_wake (multicast at) = min_of base next_wake at
  wake_for next_wake (unicast at wasfrom wasto response_type) = min_of base next_wake at

  abbrev pub wake_for_all : I → List (Bytes × ActiveAdvertisement A S I) → I
  wake_for_all next_wake [] = next_wake
  wake_for_all next_wake ((key, value) ∷ rest) =
      wake_for_all (wake_for next_wake value.response_needed) rest

module _ {A S I CB : Type 0} (base : Timebase I) where
  unfoldable pub poll_timeout : Engine A S I CB → I
  poll_timeout e = wake_for_all base (next_refresh base e.refresh_timer) e.advertisements

  unfoldable pub reset_refresh_timer : I → Engine A S I CB → Engine A S I CB
  reset_refresh_timer now e = record e {
    refresh_timer = RefreshTimer.reset base now e.refresh_timer;
  }

module _ {A S I K : Type 0} (base : Timebase I) (addrs : Addresses A S)
    (socket : TargetedSend A S K) where
  -- The `match` of the loop, for the response that an advertisement owes.
  abbrev pub respond :
      I
      → List (ℕ × Interface A)
      → Bytes
      → ActiveAdvertisement A S I
      → ResponseNeeded A S I
      → K
      → ActiveAdvertisement A S I × K
  respond now interfaces key value no_response k = (value, k)
  respond now interfaces key value (multicast at) k =
      if is_due base now at
      then (
        record value { response_needed = no_response },
        notify_on_all addrs socket value.advertisement key interfaces k,
      )
      else (value, k)
  respond now interfaces key value (unicast at wasfrom wasto response_type) k =
      if is_due base now at
      then (
        record value { response_needed = no_response },
        send_response addrs socket wasto wasfrom key response_type value.advertisement.location k,
      )
      else (value, k)

  unfoldable pub respond_all :
      I
      → List (ℕ × Interface A)
      → List (Bytes × ActiveAdvertisement A S I)
      → K
      → List (Bytes × ActiveAdvertisement A S I) × K
  respond_all now interfaces [] k = ([], k)
  respond_all now interfaces ((key, value) ∷ rest) k =
      let r = respond now interfaces key value value.response_needed k in
      let s = respond_all now interfaces rest r.1 in ((key, r.0) ∷ s.0, s.1)

  unfoldable pub handle_timeout : {CB : Type 0} → Engine A S I CB → K → I → Engine A S I CB × K
  handle_timeout e k now =
      let due = is_due base now (next_refresh base e.refresh_timer) in
      let timer = if due then update_refresh base now e.refresh_timer else e.refresh_timer in
      let k' = if due then refresh addrs socket e k else k in
      let r = respond_all now e.interfaces e.advertisements k' in
      (record e { refresh_timer = timer; advertisements = r.0 }, r.1)
