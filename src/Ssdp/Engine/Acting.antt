-- ===== src/Ssdp/Engine/Acting.antt =====
-- cotton-ssdp/src/engine.rs: what handle_timeout leaves to be done.
use cotton.Prelude.{
  ℕ, ◌-◌, ◌≤◌, ◌≡◌, refl, sym, ap, subst, ◌∙◌, Bool-cases, inl, inr, Bool, true, false, not, ◌==◌,
  List, [], ◌∷◌, if◌then◌else◌, arith,
}
use cotton.Prelude.Bytes.{Bytes}
use cotton.Ssdp.RefreshTimer.{Timebase, RefreshTimer, period_msec, next_refresh, update_refresh}
use cotton.Ssdp.RefreshTimer.Schedule.{IsTimebase}
use cotton.Ssdp.Udp.{Addresses, TargetedSend}
use cotton.Ssdp.Engine.{
  Interface, ResponseNeeded, no_response, multicast, unicast, ActiveAdvertisement, Engine,
}
use cotton.Ssdp.Engine.Timeouts.{is_due, poll_timeout, respond, respond_all, handle_timeout}
use cotton.Ssdp.Engine.Waking.{
  IsOrder, DueAt, to_all, to_one, Owes, here, there, poll_timeout-IsFirst,
}

module _ {A S I : Type 0} where
  -- A response that is not there after it may have been sent has not been due.
  undue :
      {K : Type 0} {at : I} (early : Bool) (value : ActiveAdvertisement A S I) (sent k : K)
      → DueAt at
          (if◌then◌else◌ {A = ActiveAdvertisement A S I × K}
            (not early)
            (record value { response_needed = no_response }, sent)
            (value, k)).0.response_needed
      → (early ≡ true) × DueAt at value.response_needed
  undue true value sent k d = (refl, d)
  undue false value sent k d = elim d [ ]

  instant-all : {at b : I} → DueAt {A = A} {S = S} at (multicast b) → b ≡ at
  instant-all to_all = refl

  instant-one :
      {at b : I} {wasfrom : S} {wasto : A} {response_type : Bytes}
      → DueAt at (unicast b wasfrom wasto response_type)
      → b ≡ at
  instant-one (to_one wasfrom wasto response_type) = refl

module _ {A S I K : Type 0} (base : Timebase I) (addrs : Addresses A S)
    (socket : TargetedSend A S K) (now : I) (interfaces : List (ℕ × Interface A)) where
  -- What is still owed was owed, and is for later.
  respond_later :
      {at : I} (key : Bytes) (value : ActiveAdvertisement A S I) (r : ResponseNeeded A S I) (k : K)
      → value.response_needed ≡ r
      → DueAt at (respond base addrs socket now interfaces key value r k).0.response_needed
      → (base.is_before now at ≡ true) × DueAt at value.response_needed
  respond_later {at = at} key value no_response k h d = elim (subst (DueAt at) h d) [ ]
  respond_later {at = at} key value (multicast b) k h d =
      let (e, d') = undue (base.is_before now b) value _ k d in
      (subst (λ x. base.is_before now x ≡ true) (instant-all (subst (DueAt at) h d')) e, d')
  respond_later {at = at} key value (unicast b wasfrom wasto response_type) k h d =
      let (e, d') = undue (base.is_before now b) value _ k d in
      (subst (λ x. base.is_before now x ≡ true) (instant-one (subst (DueAt at) h d')) e, d')

  respond_kept :
      {at : I} (key : Bytes) (value : ActiveAdvertisement A S I) (r : ResponseNeeded A S I) (k : K)
      → DueAt at r
      → DueAt at value.response_needed
      → base.is_before now at ≡ true
      → DueAt at (respond base addrs socket now interfaces key value r k).0.response_needed
  respond_kept key value _ k to_all d h = rw h d
  respond_kept key value _ k (to_one wasfrom wasto response_type) d h = rw h d

  respond_all_later :
      {at : I} (ads : List (Bytes × ActiveAdvertisement A S I)) (k : K)
      → Owes at (respond_all base addrs socket now interfaces ads k).0
      → (base.is_before now at ≡ true) × Owes at ads
  unfolding respond_all
  respond_all_later [] k o = elim o [ ]
  respond_all_later ((key, value) ∷ rest) k (here d) =
      let (e, d') = respond_later key value value.response_needed k refl d in (e, here d')
  respond_all_later ((key, value) ∷ rest) k (there o) =
      let (e, o') = respond_all_later rest _ o in (e, there o')

  respond_all_kept :
      {at : I} {ads : List (Bytes × ActiveAdvertisement A S I)} (k : K)
      → Owes at ads
      → base.is_before now at ≡ true
      → Owes at (respond_all base addrs socket now interfaces ads k).0
  unfolding respond_all
  respond_all_kept {ads = []} k o h = elim o [ ]
  respond_all_kept {ads = (key, value) ∷ rest} k (here d) h =
      here (respond_kept key value value.response_needed k d d h)
  respond_all_kept {ads = (key, value) ∷ rest} k (there o) h = there (respond_all_kept _ o h)

period_above : (seed p : ℕ) → 6_000 ≤ period_msec seed p
unfolding period_msec
period_above seed p = ground arith

module _ {I : Type 0} (base : Timebase I) (order : IsOrder base) (times : IsTimebase base) where
  pub later_still :
      (now t : I) (a b : ℕ)
      → a ≤ b
      → base.is_before now (base.add_millis t a) ≡ true
      → base.is_before now (base.add_millis t b) ≡ true
  later_still now t a b l h = elim (Bool-cases (a == b)) [
    | inl q ↦ subst (λ n. base.is_before now (base.add_millis t n) ≡ true) (ground arith) h
    | inr q ↦
        let e : base.add_millis (base.add_millis t a) (b - a) ≡ base.add_millis t b =
          times.adds t a (b - a) ∙ ap (base.add_millis t) (omega arith) in
        order.chain now _ _ h (
          subst (λ x. base.is_before (base.add_millis t a) x ≡ true) e
            (times.forward (base.add_millis t a) (b - a) (ground arith)))
  ]

  -- The timer is not due any more.
  refreshed :
      (timer : RefreshTimer I) (now : I)
      → base.is_before now (base.add_millis (next_refresh base timer) 6_000) ≡ true
      → base.is_before now (
          next_refresh base (
            if is_due base now (next_refresh base timer)
            then update_refresh base now timer
            else timer))
        ≡ true
  unfolding next_refresh update_refresh
  refreshed timer now h = elim (Bool-cases (base.is_before now timer.next_salvo)) [
    | inl q ↦ rw q q
    | inr q ↦
        rw q
          (later_still now timer.next_salvo 6_000 _ (period_above timer.random_seed timer.phase) h)
  ]

-- What handle_timeout leaves: of the responses just those that are for later, and nothing to do
-- before the next wake-up.
pub record Settles {A S I CB : Type 0} (base : Timebase I) (now : I) (e e' : Engine A S I CB)
    : Type 0 where
  pub later :
      (at : I)
      → Owes at e'.advertisements
      → (base.is_before now at ≡ true) × Owes at e.advertisements
  pub kept :
      (at : I) → Owes at e.advertisements → base.is_before now at ≡ true → Owes at e'.advertisements
  pub asleep : base.is_before now (poll_timeout base e') ≡ true

module _ {A S I K CB : Type 0} (base : Timebase I) (addrs : Addresses A S)
    (socket : TargetedSend A S K) (order : IsOrder base) (times : IsTimebase base) where
  asleep_after :
      (now : I) (e : Engine A S I CB)
      → base.is_before now (next_refresh base e.refresh_timer) ≡ true
      → ((at : I) → Owes at e.advertisements → base.is_before now at ≡ true)
      → base.is_before now (poll_timeout base e) ≡ true
  asleep_after now e h later = elim (poll_timeout-IsFirst base order e).attained [
    | inl p ↦ subst (λ t. base.is_before now t ≡ true) (sym p) h
    | inr o ↦ later _ o
  ]

  -- When handle_timeout is called less than 6 s after the refresh that was due, or before it, it
  -- leaves no response that is due, and each that is for later; and now is before the instant that
  -- poll_timeout gives then, so that the owner's loop sleeps.
  pub handle_timeout-Settles :
      (e : Engine A S I CB) (k : K) (now : I)
      → base.is_before now (base.add_millis (next_refresh base e.refresh_timer) 6_000) ≡ true
      → Settles base now e (handle_timeout base addrs socket e k now).0
  unfolding handle_timeout
  handle_timeout-Settles e k now h = record {
    later = λ at o. respond_all_later base addrs socket now e.interfaces e.advertisements _ o;
    kept = λ at o l. respond_all_kept base addrs socket now e.interfaces _ o l;
    asleep =
        asleep_after now _ (refreshed base order times e.refresh_timer now h)
          (λ at o. (respond_all_later base addrs socket now e.interfaces e.advertisements _ o).0);
  }
