-- ===== src/Ssdp/Engine/Salvo.antt =====
-- cotton-ssdp/src/engine.rs: all that refresh sends.
use cotton.Prelude.{
  ℕ, ◌≡◌, refl, sym, ap, ◌∙◌, true, false, Bool-cases, arith, inl, inr, List, [], ◌∷◌, ◌++◌,
  append-nil, append_assoc, if◌then◌else◌,
}
use cotton.Prelude.Bytes.{Bytes, codes}
use mathlib.Core.List.{Memᴰ}
use cotton.Ssdp.Text.{same}
use cotton.Ssdp.Engine.Reaching.{same_sound, same_complete}
use cotton.Ssdp.Message.{build_search, build_notify}
use cotton.Ssdp.Message.RoundTrip.{sent}
use cotton.Ssdp.Udp.{Addresses}
use cotton.Ssdp.Engine.{
  Interface, Advertisement, ActiveSearch, ActiveAdvertisement, Engine, for_each, any_all, on_all,
  notify_on, notify_on_all, search_on, search_on_all, refresh,
}
use cotton.Ssdp.Engine.Url.{rewrite_host}
use cotton.Ssdp.Engine.Discovery.{Sent, recorder, packet}

abbrev pub flat : {X Y : Type 0} → (X → List Y) → List X → List Y
flat g [] = []
flat g (x ∷ xs) = g x ++ flat g xs

-- The addresses of the interfaces that are up.
abbrev pub live : {A : Type 0} → List (ℕ × Interface A) → List A
live [] = []
live ((ix, v) ∷ interfaces) = if v.up then v.ips ++ live interfaces else live interfaces

-- What is searched for: everything at once if anybody asks for that.
abbrev pub search_types : {CB : Type 0} → List (ActiveSearch CB) → List Bytes
search_types [] = []
search_types (s ∷ ss) = s.notification_type ∷ search_types ss

any_all-Mem :
    {CB : Type 0} (ss : List (ActiveSearch CB))
    → any_all ss ≡ true
    → Memᴰ (codes "ssdp:all") (search_types ss)
any_all-Mem [] h = ground arith
any_all-Mem (s ∷ ss) h = elim (Bool-cases (same s.notification_type (codes "ssdp:all"))) [
  | inl q ↦ Memᴰ.head (sym (same_sound s.notification_type (codes "ssdp:all") q))
  | inr q ↦ Memᴰ.tail (any_all-Mem ss (ground arith))
]

any_all-not-Mem :
    {CB : Type 0} (ss : List (ActiveSearch CB))
    → any_all ss ≡ false
    → ¬ Memᴰ (codes "ssdp:all") (search_types ss)
any_all-not-Mem [] h m = elim m [ ]
any_all-not-Mem (s ∷ ss) h (Memᴰ.head e) =
    same_complete s.notification_type (codes "ssdp:all") (ground arith) (sym e)
any_all-not-Mem (s ∷ ss) h (Memᴰ.tail m) = any_all-not-Mem ss (ground arith) m

for_each-flat :
    {X Y : Type 0} (g : X → List Y) (f : X → List Y → List Y) (xs : List X) (k : List Y)
    → ((x : X) (k : List Y) → f x k ≡ k ++ g x)
    → for_each xs f k ≡ k ++ flat g xs
for_each-flat g f [] k h = sym (append-nil k)
for_each-flat g f (x ∷ xs) k h =
    for_each-flat g f xs (f x k) h
    ∙ ap (λ l. l ++ flat g xs) (h x k)
    ∙ append_assoc k (g x) (flat g xs)

flat-append :
    {X Y : Type 0} (g : X → List Y) (xs ys : List X) → flat g (xs ++ ys) ≡ flat g xs ++ flat g ys
flat-append g [] ys = refl
flat-append g (x ∷ xs) ys =
    ap (λ l. g x ++ l) (flat-append g xs ys) ∙ sym (append_assoc (g x) (flat g xs) (flat g ys))

flat-types :
    {CB Y : Type 0} (g : Bytes → List Y) (ss : List (ActiveSearch CB))
    → flat (λ s. g s.notification_type) ss ≡ flat g (search_types ss)
flat-types g [] = refl
flat-types g (s ∷ ss) = ap (λ l. g s.notification_type ++ l) (flat-types g ss)

module _ {A S : Type 0} (addrs : Addresses A S) where
  on_all-flat :
      (g : A → Sent A S) (f : A → Sent A S → Sent A S) (interfaces : List (ℕ × Interface A))
      (k : Sent A S)
      → ((ip : A) (k : Sent A S) → f ip k ≡ k ++ g ip)
      → on_all addrs recorder interfaces f k ≡ k ++ flat g (live interfaces)
  on_all-flat g f [] k h = sym (append-nil k)
  on_all-flat g f ((ix, v) ∷ interfaces) k h = elim (Bool-cases v.up) [
    | inl q ↦ rw q (
        on_all-flat g f interfaces (for_each v.ips f k) h
        ∙ ap (λ l. l ++ flat g (live interfaces)) (for_each-flat g f v.ips k h)
        ∙ append_assoc k (flat g v.ips) (flat g (live interfaces))
        ∙ ap (λ l. k ++ l) (sym (flat-append g v.ips (live interfaces))))
    | inr q ↦ rw q (on_all-flat g f interfaces k h)
  ]

  -- A notification of one advertisement from one address, and a search from one.
  abbrev pub notified : Bytes → Advertisement → A → Sent A S
  notified usn ad ip =
      (
        addrs.group_socket,
        ip,
        sent (
            build_notify packet ad.notification_type usn
              (rewrite_host ad.location (addrs.to_string ip))),
      )
      ∷ []

  abbrev pub asked : Bytes → A → Sent A S
  asked st ip = (addrs.group_socket, ip, sent (build_search packet st)) ∷ []

  -- What a refresh sends of the searches: one for everything if that is one of them.
  pub data Searches {CB : Type 0} (ss : List (ActiveSearch CB)) (ips : List A)
      : Sent A S → Type 0 where
    everything :
        Memᴰ (codes "ssdp:all") (search_types ss)
        → Searches ss ips (flat (asked (codes "ssdp:all")) ips)
    each_type :
        ¬ Memᴰ (codes "ssdp:all") (search_types ss)
        → Searches ss ips (flat (λ st. flat (asked st) ips) (search_types ss))

  abbrev searches : {CB : Type 0} → List (ActiveSearch CB) → List A → Sent A S
  searches ss ips =
      if any_all ss
      then flat (asked (codes "ssdp:all")) ips
      else flat (λ st. flat (asked st) ips) (search_types ss)

  searches-Searches :
      {CB : Type 0} (ss : List (ActiveSearch CB)) (ips : List A) → Searches ss ips (searches ss ips)
  searches-Searches ss ips = elim (Bool-cases (any_all ss)) [
    | inl q ↦ rw q (everything (any_all-Mem ss q))
    | inr q ↦ rw q (each_type (any_all-not-Mem ss q))
  ]

  abbrev pub notifications :
      {I : Type 0} → List (Bytes × ActiveAdvertisement A S I) → List A → Sent A S
  notifications ads ips = flat (λ ad. flat (notified ad.0 ad.1.advertisement) ips) ads

  search_on_all-flat :
      (st : Bytes) (interfaces : List (ℕ × Interface A)) (k : Sent A S)
      → search_on_all addrs recorder interfaces st k ≡ k ++ flat (asked st) (live interfaces)
  unfolding search_on_all search_on
  search_on_all-flat st interfaces k =
      on_all-flat (asked st) (search_on addrs recorder st) interfaces k (λ ip k. refl)

  notify_on_all-flat :
      (ad : Advertisement) (usn : Bytes) (interfaces : List (ℕ × Interface A)) (k : Sent A S)
      → notify_on_all addrs recorder ad usn interfaces k
        ≡ k ++ flat (notified usn ad) (live interfaces)
  unfolding notify_on_all notify_on
  notify_on_all-flat ad usn interfaces k =
      on_all-flat (notified usn ad) (notify_on addrs recorder ad usn) interfaces k (λ ip k. refl)

  searched-flat :
      {CB : Type 0} (ss : List (ActiveSearch CB)) (interfaces : List (ℕ × Interface A))
      (k : Sent A S)
      → (if any_all ss
          then search_on_all addrs recorder interfaces (codes "ssdp:all") k
          else for_each ss (λ s. search_on_all addrs recorder interfaces s.notification_type) k)
        ≡ k ++ searches ss (live interfaces)
  searched-flat ss interfaces k = elim (Bool-cases (any_all ss)) [
    | inl q ↦ rw q (search_on_all-flat (codes "ssdp:all") interfaces k)
    | inr q ↦ rw q (
        for_each-flat (λ s. flat (asked s.notification_type) (live interfaces)) _ ss k
          (λ s k. search_on_all-flat s.notification_type interfaces k)
        ∙ ap (λ l. k ++ l) (flat-types (λ st. flat (asked st) (live interfaces)) ss))
  ]

  -- What a refresh sends, in this order: the notifications, then the searches.
  pub record Refreshes {I CB : Type 0} (e : Engine A S I CB) (before after : Sent A S)
      : Type 0 where
    pub asks : Sent A S
    pub searched : Searches e.active_searches (live e.interfaces) asks
    pub sends : after ≡ (before ++ notifications e.advertisements (live e.interfaces)) ++ asks

  -- A refresh sends, through a socket that sends what is built, these packets in this order and no
  -- others: for each advertisement, a notification from each address of each interface that is up;
  -- then from each of these addresses one search for everything if that is among the types that are
  -- searched for, and otherwise for each of these types a search from each of these addresses.
  pub refresh-Refreshes :
      {I CB : Type 0} (e : Engine A S I CB) (k : Sent A S)
      → Refreshes e k (refresh addrs recorder e k)
  unfolding refresh
  refresh-Refreshes e k = record {
    asks = searches e.active_searches (live e.interfaces);
    searched = searches-Searches e.active_searches (live e.interfaces);
    sends =
        searched-flat e.active_searches e.interfaces _
        ∙ ap (λ l. l ++ searches e.active_searches (live e.interfaces))
            (for_each-flat (λ ad. flat (notified ad.0 ad.1.advertisement) (live e.interfaces)) _
              e.advertisements k
              (λ ad k. notify_on_all-flat ad.1.advertisement ad.0 e.interfaces k));
  }
