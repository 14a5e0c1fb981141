-- ===== src/Ssdp/Engine/Discovery.antt =====
-- cotton-ssdp/src/engine.rs: a search from one engine to another and back.
use cotton.Prelude.{
  ℕ, ◌+◌, ◌%◌, ◌≤◌, ◌<◌, ◌≡◌, refl, true, false, Bool-cases, inl, inr, List, [], ◌∷◌, ◌++◌, length,
  replicate, if◌then◌else◌, arith,
}
use cotton.Prelude.Bytes.{Bytes, codes}
use cotton.Prelude.Outcome.{returns}
use cotton.Ssdp.Text.{same}
use cotton.Ssdp.Message.{build_search, build_response, search_pieces, response_pieces}
use cotton.Ssdp.Message.Cursor.{concat}
use cotton.Ssdp.Message.RoundTrip.{IsValue, sent, parse-build_search, parse-build_response}
use cotton.Ssdp.RefreshTimer.{Timebase, next_refresh}
use cotton.Ssdp.RefreshTimer.Schedule.{IsTimebase}
use cotton.Ssdp.Udp.{Addresses, TargetedSend}
use cotton.Ssdp.Engine.{
  max_packet_size, Advertisement, no_response, Engine, search_on, send_response,
}
use cotton.Ssdp.Engine.Target.{target_match}
use cotton.Ssdp.Engine.Url.{rewrite_host}
use cotton.Ssdp.Engine.Timeouts.{is_due, respond_all, handle_timeout}
use cotton.Ssdp.Engine.Events.{
  Notification, alive, call_subscribers, schedule, schedule_all, on_data,
}
use cotton.Ssdp.Engine.Reaching.{
  Tells, IsTypeOfAnswer, call_subscribers-Tells, answer_type-IsTypeOfAnswer,
}
use cotton.Ssdp.Engine.Hearing.{delayed}
use cotton.Ssdp.Engine.Waking.{IsOrder}
use cotton.Ssdp.Engine.Acting.{later_still}

-- A socket that sends what the builder leaves in a fresh buffer; the list is what has gone out, with
-- the destination and the source.
abbrev pub Sent : Type 0 → Type 0 → Type 0
Sent A S = List (S × A × Bytes)

abbrev pub recorder : {A S : Type 0} → TargetedSend A S (Sent A S)
recorder = record {
  send_with = λ size to source build k. k ++ (to, source, sent (build (replicate size 0))) ∷ [];
}

abbrev pub packet : Bytes
packet = replicate max_packet_size 0

-- The type of the answer to a search: for a search for everything, that of the advertisement.
abbrev pub answer_type : Bytes → Bytes → Bytes
answer_type search_target notification_type =
    if same search_target (codes "ssdp:all") then notification_type else search_target

-- An engine with one advertisement, for which no response is owed.
abbrev pub offering :
    {A S I CB : Type 0} → Engine A S I CB → Bytes → Advertisement → Engine A S I CB
offering e usn ad = record e {
  advertisements = (usn, record { advertisement = ad; response_needed = no_response }) ∷ [];
}

-- What can be carried by a message of at most 512 bytes.
pub record Fits (st usn url type : Bytes) : Type 0 where
  pub st_value : IsValue st
  pub usn_value : IsValue usn
  pub url_value : IsValue url
  pub type_value : IsValue type
  pub search_room : length (concat (search_pieces st)) ≤ max_packet_size
  pub response_room : length (concat (response_pieces type usn url)) ≤ max_packet_size

module _ {A S I CB W : Type 0} (addrs : Addresses A S) (base : Timebase I)
    (on_notification : CB → Notification → W → W) where
  -- The way of a search: what the searcher sends makes the device owe a response; the device sends
  -- that to the searcher, whose subscribers are told of the device.
  pub record Discovers (searcher device : Engine A S I CB) (st usn : Bytes) (ad : Advertisement)
      (ip wasto : A) (wasfrom device_socket : S) (now later : I) (w : W) : Type 0 where
    pub asked : Bytes
    pub answer : Bytes
    pub owing : Engine A S I CB
    pub goes_out : search_on addrs recorder st ip [] ≡ (addrs.group_socket, ip, asked) ∷ []
    pub taken :
        on_data addrs base on_notification (offering device usn ad) asked wasto wasfrom now w
        ≡ returns (owing, w)
    pub answered :
        (handle_timeout base addrs recorder owing [] later).1 ≡ (wasfrom, wasto, answer) ∷ []
    pub type : Bytes
    pub meant : IsTypeOfAnswer st ad.notification_type type
    pub told : W
    pub taken_back :
        on_data addrs base on_notification searcher answer ip device_socket later w
        ≡ returns (searcher, told)
    pub reached :
        Tells on_notification type
          (alive type usn (rewrite_host ad.location (addrs.to_string wasto)))
          searcher.active_searches
          w
          told

  module _ (order : IsOrder base) (times : IsTimebase base) where
    due_then :
        (now later : I) (d : ℕ)
        → d < 5_010
        → base.is_before later (base.add_millis now 5_010) ≡ false
        → is_due base later (base.add_millis now d) ≡ true
    due_then now later d l h = elim (Bool-cases (base.is_before later (base.add_millis now d))) [
      | inl q ↦ ground (arith, later_still base order times later now d 5_010 (omega arith) q)
      | inr q ↦ rw q refl
    ]

    -- A device has one advertisement and owes no response for it, and a search for it, in a packet of
    -- 512 bytes, comes in. When 5.01 s have passed, and no refresh of the device is due, the device
    -- sends one packet, the answer, to the searcher; and that calls, one after the other, the
    -- callbacks of just the searches that match the answer's type, with the name and with the
    -- location rewritten to the device's address. The values fit into messages of 512 bytes.
    pub search-Discovers :
        (searcher device : Engine A S I CB) (st usn : Bytes) (ad : Advertisement) (ip wasto : A)
        (wasfrom device_socket : S) (now later : I) (w : W)
        → Fits st usn
            (rewrite_host ad.location (addrs.to_string wasto))
            (answer_type st ad.notification_type)
        → target_match st ad.notification_type ≡ true
        → base.is_before later (base.add_millis now 5_010) ≡ false
        → base.is_before later (next_refresh base device.refresh_timer) ≡ true
        → Discovers searcher device st usn ad ip wasto wasfrom device_socket now later w
    unfolding search_on on_data handle_timeout respond_all schedule_all schedule send_response
    search-Discovers searcher device st usn ad ip wasto wasfrom device_socket now later w fits m h
          fresh =
        record {
          asked = sent (build_search packet st);
          answer = sent (
              build_response packet (answer_type st ad.notification_type) usn
                (rewrite_host ad.location (addrs.to_string wasto)));
          owing = record device {
            advertisements =
                schedule_all addrs st (base.add_millis now (device.random_seed % 5_000 + 10))
                  wasfrom wasto (offering device usn ad).advertisements;
          };
          goes_out = refl;
          taken =
              rw
                (
                  on_data,
                  parse-build_search packet st fits.st_value fits.search_room,
                  delayed device.random_seed 4,
                )
                refl;
          answered =
              rw
                (
                  schedule,
                  m,
                  fresh,
                  due_then now later (device.random_seed % 5_000 + 10) (omega arith) h,
                )
                refl;
          type = answer_type st ad.notification_type;
          meant = answer_type-IsTypeOfAnswer st ad.notification_type;
          told =
              call_subscribers on_notification searcher.active_searches
                (alive (answer_type st ad.notification_type) usn
                  (rewrite_host ad.location (addrs.to_string wasto)))
                w;
          reached = call_subscribers-Tells on_notification searcher.active_searches _ w;
          taken_back =
              rw
                (
                  on_data,
                  parse-build_response packet (answer_type st ad.notification_type) usn _
                      fits.type_value fits.usn_value fits.url_value fits.response_room,
                )
                refl;
        }
