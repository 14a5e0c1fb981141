-- ===== src/Ssdp/Engine/Waking.antt =====
-- cotton-ssdp/src/engine.rs: the instants of poll_timeout and handle_timeout.
use cotton.Prelude.{
  ◌≡◌, refl, sym, subst, ◌∙◌, ◌⊎◌, Bool-cases, inl, inr, true, false, List, [], ◌∷◌,
}
use cotton.Prelude.Bytes.{Bytes}
use cotton.Ssdp.RefreshTimer.{Timebase, next_refresh}
use cotton.Ssdp.Engine.{
  ResponseNeeded, no_response, multicast, unicast, ActiveAdvertisement, Engine,
}
use cotton.Ssdp.Engine.Timeouts.{min_of, wake_for, wake_for_all, poll_timeout}

-- What the engine relies on in the order of instants.
pub record IsOrder {I : Type 0} (base : Timebase I) : Type 0 where
  pub one_way : (s t : I) → base.is_before s t ≡ true → base.is_before t s ≡ false
  pub chain :
      (s t u : I)
      → base.is_before s t ≡ true
      → base.is_before t u ≡ true
      → base.is_before s u ≡ true
  pub not_before :
      (s t u : I)
      → base.is_before s t ≡ false
      → base.is_before t u ≡ false
      → base.is_before s u ≡ false

module _ {A S I : Type 0} where
  -- A response is owed at an instant.
  pub data DueAt (at : I) : ResponseNeeded A S I → Type 0 where
    to_all : DueAt at (multicast at)
    to_one :
        (wasfrom : S) (wasto : A) (response_type : Bytes)
        → DueAt at (unicast at wasfrom wasto response_type)

  -- Some advertisement owes a response at an instant.
  pub data Owes (at : I) : List (Bytes × ActiveAdvertisement A S I) → Type 0 where
    here :
        {key : Bytes} {value : ActiveAdvertisement A S I}
        {rest : List (Bytes × ActiveAdvertisement A S I)}
        → DueAt at value.response_needed
        → Owes at ((key, value) ∷ rest)
    there :
        {ad : Bytes × ActiveAdvertisement A S I} {rest : List (Bytes × ActiveAdvertisement A S I)}
        → Owes at rest
        → Owes at (ad ∷ rest)

module _ {I : Type 0} (base : Timebase I) (order : IsOrder base) where
  not_self : (t : I) → base.is_before t t ≡ false
  not_self t = elim (Bool-cases (base.is_before t t)) [ inl q ↦ order.one_way t t q | inr q ↦ q ]

  min_of_left : (a b : I) → base.is_before a (min_of base a b) ≡ false
  min_of_left a b = elim (Bool-cases (base.is_before b a)) [
    | inl q ↦ rw q (order.one_way b a q)
    | inr q ↦ rw q (not_self a)
  ]

  min_of_right : (a b : I) → base.is_before b (min_of base a b) ≡ false
  min_of_right a b = elim (Bool-cases (base.is_before b a)) [
    | inl q ↦ rw q (not_self b)
    | inr q ↦ rw q q
  ]

module _ {A S I : Type 0} (base : Timebase I) (order : IsOrder base) where
  wake_for_start : (t : I) (r : ResponseNeeded A S I) → base.is_before t (wake_for base t r) ≡ false
  wake_for_start t no_response = not_self base order t
  wake_for_start t (multicast at) = min_of_left base order t at
  wake_for_start t (unicast at wasfrom wasto response_type) = min_of_left base order t at

  wake_for_all_start :
      (t : I) (ads : List (Bytes × ActiveAdvertisement A S I))
      → base.is_before t (wake_for_all base t ads) ≡ false
  wake_for_all_start t [] = not_self base order t
  wake_for_all_start t ((key, value) ∷ rest) =
      order.not_before t _ _ (wake_for_start t value.response_needed)
        (wake_for_all_start (wake_for base t value.response_needed) rest)

  wake_for_owed :
      (t : I) {at : I} {r : ResponseNeeded A S I}
      → DueAt at r
      → base.is_before at (wake_for base t r) ≡ false
  wake_for_owed t {at = at} to_all = min_of_right base order t at
  wake_for_owed t {at = at} (to_one wasfrom wasto response_type) = min_of_right base order t at

  wake_for_all_owed :
      {at : I} (t : I) {ads : List (Bytes × ActiveAdvertisement A S I)}
      → Owes at ads
      → base.is_before at (wake_for_all base t ads) ≡ false
  wake_for_all_owed {at = at} t {ads = []} o = elim o [ ]
  wake_for_all_owed {at = at} t {ads = (key, value) ∷ rest} (here h) =
      order.not_before at _ _ (wake_for_owed t h)
        (wake_for_all_start (wake_for base t value.response_needed) rest)
  wake_for_all_owed {at = at} t {ads = (key, value) ∷ rest} (there o) =
      wake_for_all_owed (wake_for base t value.response_needed) o

module _ {A S I : Type 0} (base : Timebase I) where
  wake_for_is :
      (t : I) (r : ResponseNeeded A S I) → (wake_for base t r ≡ t) ⊎ DueAt (wake_for base t r) r
  wake_for_is t no_response = inl refl
  wake_for_is t (multicast at) = elim (Bool-cases (base.is_before at t)) [
    | inl q ↦ rw q (inr to_all)
    | inr q ↦ rw q (inl refl)
  ]
  wake_for_is t (unicast at wasfrom wasto response_type) = elim (Bool-cases (base.is_before at t)) [
    | inl q ↦ rw q (inr (to_one wasfrom wasto response_type))
    | inr q ↦ rw q (inl refl)
  ]

  wake_for_all_is :
      (t : I) (ads : List (Bytes × ActiveAdvertisement A S I))
      → (wake_for_all base t ads ≡ t) ⊎ Owes (wake_for_all base t ads) ads
  wake_for_all_is t [] = inl refl
  wake_for_all_is t ((key, value) ∷ rest) =
      elim (wake_for_all_is (wake_for base t value.response_needed) rest) [
        | inr o ↦ inr (there o)
        | inl p ↦ elim (wake_for_is t value.response_needed) [
          | inl q ↦ inl (p ∙ q)
          | inr d ↦ inr (here (subst (λ x. DueAt x value.response_needed) (sym p) d))
        ]
      ]

-- The first of the instants at which there is something to do.
pub record IsFirst {A S I CB : Type 0} (base : Timebase I) (e : Engine A S I CB) (t : I)
    : Type 0 where
  pub refresh : base.is_before (next_refresh base e.refresh_timer) t ≡ false
  pub response : (at : I) → Owes at e.advertisements → base.is_before at t ≡ false
  pub attained : (t ≡ next_refresh base e.refresh_timer) ⊎ Owes t e.advertisements

-- In an order of instants, poll_timeout gives the next refresh or the instant of a response that is
-- owed, and neither the refresh nor any response is due before it.
pub poll_timeout-IsFirst :
    {A S I CB : Type 0} (base : Timebase I)
    → IsOrder base
    → (e : Engine A S I CB) → IsFirst base e (poll_timeout base e)
unfolding poll_timeout
poll_timeout-IsFirst base order e = record {
  refresh = wake_for_all_start base order (next_refresh base e.refresh_timer) e.advertisements;
  response = λ at o. wake_for_all_owed base order (next_refresh base e.refresh_timer) o;
  attained = wake_for_all_is base (next_refresh base e.refresh_timer) e.advertisements;
}
