-- ===== src/Ssdp/Engine/Reaching.antt =====
-- cotton-ssdp/src/engine.rs: whom call_subscribers reaches, and what a search leaves owed.
use cotton.Prelude.{
  ◌≡◌, ◌≢◌, refl, subst, if◌then◌else◌, arith, true, false, Bool-cases, inl, inr, List, [], ◌∷◌,
}
use cotton.Prelude.Bytes.{Bytes, codes}
use cotton.Ssdp.Text.{same}
use cotton.Ssdp.Udp.{Addresses}
use cotton.Ssdp.Engine.{
  Advertisement, ActiveSearch, ResponseNeeded, no_response, multicast, unicast, ActiveAdvertisement,
}
use cotton.Ssdp.Engine.Target.{target_match}
use cotton.Ssdp.Engine.Events.{
  Notification, type_of, call_subscribers, owed, schedule, schedule_all,
}

module _ {CB W : Type 0} (on_notification : CB → Notification → W → W) where
  -- The callbacks of the searches that match the type have been called, one after the other, and
  -- those of the others have not.
  pub data Tells (type : Bytes) (n : Notification) : List (ActiveSearch CB) → W → W → Type 0 where
    nobody_left : {w : W} → Tells type n [] w w
    tells :
        {s : ActiveSearch CB} {ss : List (ActiveSearch CB)} {w after : W}
        → target_match s.notification_type type ≡ true
        → Tells type n ss (on_notification s.callback n w) after
        → Tells type n (s ∷ ss) w after
    passes :
        {s : ActiveSearch CB} {ss : List (ActiveSearch CB)} {w after : W}
        → target_match s.notification_type type ≡ false
        → Tells type n ss w after
        → Tells type n (s ∷ ss) w after

  pub call_subscribers-Tells :
      (ss : List (ActiveSearch CB)) (n : Notification) (w : W)
      → Tells (type_of n) n ss w (call_subscribers on_notification ss n w)
  unfolding call_subscribers
  call_subscribers-Tells [] n w = nobody_left
  call_subscribers-Tells (s ∷ ss) n w =
      elim (Bool-cases (target_match s.notification_type (type_of n))) [
        | inl q ↦ rw q (tells q (call_subscribers-Tells ss n _))
        | inr q ↦ rw q (passes q (call_subscribers-Tells ss n w))
      ]

-- Equal byte strings, and no others, are the same.
pub same_sound : (s t : Bytes) → same s t ≡ true → s ≡ t
same_sound [] [] h = refl
same_sound [] (c ∷ t) h = ground arith
same_sound (b ∷ s) [] h = ground arith
same_sound (b ∷ s) (c ∷ t) h =
    let eq : b ≡ c = ground arith in let rest = same_sound s t (ground arith) in rw (eq, rest) refl

pub same_refl : (s : Bytes) → same s s ≡ true
same_refl [] = refl
same_refl (b ∷ s) = let rest = same_refl s in ground arith

pub same_complete : (s t : Bytes) → same s t ≡ false → s ≢ t
same_complete s t h e =
    let q : same s t ≡ true = subst (λ u. same s u ≡ true) e (same_refl s) in ground arith

-- The type of an answer: the one that was searched for, and for a search for everything that of the
-- advertisement.
pub data IsTypeOfAnswer (search_target notification_type : Bytes) : Bytes → Type 0 where
  for_everything :
      search_target ≡ codes "ssdp:all"
      → IsTypeOfAnswer search_target notification_type notification_type
  for_type :
      search_target ≢ codes "ssdp:all"
      → IsTypeOfAnswer search_target notification_type search_target

pub answer_type-IsTypeOfAnswer :
    (st type : Bytes) → IsTypeOfAnswer st type (if same st (codes "ssdp:all") then type else st)
answer_type-IsTypeOfAnswer st type = elim (Bool-cases (same st (codes "ssdp:all"))) [
  | inl q ↦ rw q (for_everything (same_sound st (codes "ssdp:all") q))
  | inr q ↦ rw q (for_type (same_complete st (codes "ssdp:all") q))
]

module _ {A S I : Type 0} (addrs : Addresses A S) where
  -- What a search makes of one advertisement. A first one that matches owes the searcher an answer,
  -- of the type of the advertisement if everything was searched for; the same searcher's next one
  -- changes nothing; another searcher's turns the answer into one to all, at the same time.
  pub data Owes (search_target : Bytes) (reply_at : I) (wasfrom : S) (wasto : A)
      : ActiveAdvertisement A S I → ActiveAdvertisement A S I → Type 0 where
    not_meant :
        {v : ActiveAdvertisement A S I}
        → target_match search_target v.advertisement.notification_type ≡ false
        → Owes search_target reply_at wasfrom wasto v v
    first :
        {ad : Advertisement} {type : Bytes}
        → target_match search_target ad.notification_type ≡ true
        → IsTypeOfAnswer search_target ad.notification_type type
        → Owes search_target reply_at wasfrom wasto
            (record { advertisement = ad; response_needed = no_response })
            (record { advertisement = ad; response_needed = unicast reply_at wasfrom wasto type })
    again :
        {ad : Advertisement} {at : I} {from : S} {to : A} {type : Bytes}
        → target_match search_target ad.notification_type ≡ true
        → addrs.same_socket wasfrom from ≡ true
        → Owes search_target reply_at wasfrom wasto
            (record { advertisement = ad; response_needed = unicast at from to type })
            (record { advertisement = ad; response_needed = unicast at from to type })
    second :
        {ad : Advertisement} {at : I} {from : S} {to : A} {type : Bytes}
        → target_match search_target ad.notification_type ≡ true
        → addrs.same_socket wasfrom from ≡ false
        → Owes search_target reply_at wasfrom wasto
            (record { advertisement = ad; response_needed = unicast at from to type })
            (record { advertisement = ad; response_needed = multicast at })
    to_all :
        {ad : Advertisement} {at : I}
        → target_match search_target ad.notification_type ≡ true
        → Owes search_target reply_at wasfrom wasto
            (record { advertisement = ad; response_needed = multicast at })
            (record { advertisement = ad; response_needed = multicast at })

  -- Every advertisement keeps its place and its name.
  pub data OwesAll (search_target : Bytes) (reply_at : I) (wasfrom : S) (wasto : A)
      : List (Bytes × ActiveAdvertisement A S I)
        → List (Bytes × ActiveAdvertisement A S I)
        → Type 0 where
    none_left : OwesAll search_target reply_at wasfrom wasto [] []
    each :
        {usn : Bytes} {v v' : ActiveAdvertisement A S I}
        {ads ads' : List (Bytes × ActiveAdvertisement A S I)}
        → Owes search_target reply_at wasfrom wasto v v'
        → OwesAll search_target reply_at wasfrom wasto ads ads'
        → OwesAll search_target reply_at wasfrom wasto ((usn, v) ∷ ads) ((usn, v') ∷ ads')

  response_Owes :
      (search_target : Bytes) (reply_at : I) (wasfrom : S) (wasto : A) (ad : Advertisement)
      (r : ResponseNeeded A S I)
      → target_match search_target ad.notification_type ≡ true
      → Owes search_target reply_at wasfrom wasto
          (record { advertisement = ad; response_needed = r })
          (record {
            advertisement = ad;
            response_needed =
                owed addrs search_target ad.notification_type reply_at wasfrom wasto r;
          })
  response_Owes search_target reply_at wasfrom wasto ad no_response m =
      first m (answer_type-IsTypeOfAnswer search_target ad.notification_type)
  response_Owes search_target reply_at wasfrom wasto ad (unicast at from to type) m =
      elim (Bool-cases (addrs.same_socket wasfrom from)) [
        | inl q ↦ rw q (again m q)
        | inr q ↦ rw q (second m q)
      ]
  response_Owes search_target reply_at wasfrom wasto ad (multicast at) m = to_all m

  schedule-Owes :
      (search_target : Bytes) (reply_at : I) (wasfrom : S) (wasto : A)
      (v : ActiveAdvertisement A S I)
      → Owes search_target reply_at wasfrom wasto v
          (schedule addrs search_target reply_at wasfrom wasto v)
  unfolding schedule
  schedule-Owes search_target reply_at wasfrom wasto v =
      elim (Bool-cases (target_match search_target v.advertisement.notification_type)) [
        | inl q ↦
            rw q (
              response_Owes search_target reply_at wasfrom wasto v.advertisement v.response_needed
                q)
        | inr q ↦ rw q (not_meant q)
      ]

  pub schedule_all-OwesAll :
      (search_target : Bytes) (reply_at : I) (wasfrom : S) (wasto : A)
      (ads : List (Bytes × ActiveAdvertisement A S I))
      → OwesAll search_target reply_at wasfrom wasto ads
          (schedule_all addrs search_target reply_at wasfrom wasto ads)
  unfolding schedule_all
  schedule_all-OwesAll search_target reply_at wasfrom wasto [] = none_left
  schedule_all-OwesAll search_target reply_at wasfrom wasto ((usn, v) ∷ ads) =
      each (schedule-Owes search_target reply_at wasfrom wasto v)
        (schedule_all-OwesAll search_target reply_at wasfrom wasto ads)
