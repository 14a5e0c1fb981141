-- ===== src/UsbHost/Bus/Requests/Keeps.antt =====
-- cotton-usb-host/src/usb_bus.rs: what the requests that set a device up leave as it was.
use cotton.Prelude.{
  ℕ, ◌≤◌, ◌≡◌, refl, ◌==◌, ◌||◌, true, Bool-cases, inl, inr, length, take, replicate, ltb, leb,
  if◌then◌else◌, arith,
}
use cotton.Prelude.Bytes.{Bytes}
use cotton.Prelude.Outcome.{Outcome, returns, panics}
use cotton.Prelude.Result.{Result, ok, err}
use cotton.UsbHost.HostController.{
  UsbError, UsbSpeed, DataPhase, data_in, no_data, HostController, Usb, and_then, ret, fail,
}
use cotton.UsbHost.Wire.{DescriptorVisitor}
use cotton.UsbHost.Wire.Descriptors.{SetupPacket}
use cotton.UsbHost.Wire.Bounds.{parse_descriptors_returns}
use cotton.UsbHost.Bus.Device.{UnaddressedDevice, UnconfiguredDevice, BasicConfiguration}
use cotton.UsbHost.Bus.Requests.{
  control, control_result, at_least, new_device, set_address, parse_reply, get_configuration,
  get_basic_configuration, configure,
}

-- The controller never claims more bytes of a control transfer than the buffer holds.
pub record IsBounded {H P : Type 0} (driver : HostController H P) : Type 0 where
  pub control_in :
      (address size : ℕ) (packet : SetupPacket) (buf : Bytes) (h : H) (n : ℕ)
      → (driver.control_transfer address size packet (data_in buf) h).0.0 ≡ ok n
      → n ≤ length (driver.control_transfer address size packet (data_in buf) h).0.1

-- The computation ends, with a result or an error, in a state with the property.
abbrev pub Keeps : {H A : Type 0} → (H → Type 0) → Outcome (Result UsbError A × H) → Type 0
Keeps I panics = ⊥
Keeps I (returns (r, h)) = I h

abbrev Within : {H : Type 0} → (H → Type 0) → Outcome (Result UsbError (ℕ × Bytes) × H) → Type 0
Within I panics = ⊥
Within I (returns (ok (n, buf), h)) = (n ≤ length buf) × I h
Within I (returns (err e, h)) = I h

module _ {H : Type 0} (I : H → Type 0) where
  pub and_then-Keeps :
      {A B : Type 0} (f : A → Usb H B) (o : Outcome (Result UsbError A × H))
      → Keeps I o
      → ((a : A) (h : H) → I h → Keeps I (f a h))
      → Keeps I (and_then f o)
  and_then-Keeps f (returns (ok a, h)) r k = k a h r
  and_then-Keeps f (returns (err e, h)) r k = r
  and_then-Keeps f panics r k = elim r [ ]

  module _ {P : Type 0} (driver : HostController H P) where
    pub at_least-Keeps : (n : ℕ) (r : ℕ × Bytes) (h : H) → I h → Keeps I (at_least driver n r h)
    at_least-Keeps n (sz, buf) h i = elim (Bool-cases (ltb sz n)) [
      | inl q ↦ rw q i
      | inr q ↦ rw q i
    ]

    module _
        (kept : (address size : ℕ) (packet : SetupPacket) (phase : DataPhase) (h : H)
          → I h
          → I (driver.control_transfer address size packet phase h).1) where
      pub control-Keeps :
          (address size : ℕ) (packet : SetupPacket) (phase : DataPhase) (h : H)
          → I h
          → Keeps I (control driver address size packet phase h)
      control-Keeps address size packet phase h i =
          let t = driver.control_transfer address size packet phase h in
          split t.0.0 t.0.1 t.1 (kept address size packet phase h i)
        where
          split :
              (r : Result UsbError ℕ) (buf : Bytes) (h' : H)
              → I h'
              → Keeps I (control_result driver ((r, buf), h'))
          split (ok n) buf h' j = j
          split (err e) buf h' j = j

      pub set_address-Keeps :
          (device : UnaddressedDevice) (address : ℕ) (h : H)
          → I h
          → Keeps I (set_address driver device address h)
      unfolding set_address
      set_address-Keeps device address h i =
          and_then-Keeps _ (control driver 0 device.packet_size_ep0 _ no_data h)
            (control-Keeps 0 _ _ no_data h i) (λ r h' j. j)

      pub new_device-Keeps : (speed : UsbSpeed) (h : H) → I h → Keeps I (new_device driver speed h)
      unfolding new_device
      new_device-Keeps speed h i =
          and_then-Keeps _ (control driver 0 8 _ _ h) (control-Keeps 0 8 _ _ h i) (λ r h' i.
            and_then-Keeps _ (at_least driver 8 r h') (at_least-Keeps 8 r h' i) (λ prefix h' i.
              and_then-Keeps _ (control driver 0 _ _ _ h') (control-Keeps 0 _ _ _ h' i) (λ q h' i.
                and_then-Keeps _ (at_least driver 18 q h') (at_least-Keeps 18 q h' i)
                  (λ d h' i. i))))

      module _ (bounded : IsBounded driver) where
        control-Within :
            (address size : ℕ) (packet : SetupPacket) (buf : Bytes) (h : H)
            → I h
            → Within I (control driver address size packet (data_in buf) h)
        control-Within address size packet buf h i =
            let t = driver.control_transfer address size packet (data_in buf) h in
            split t.0.0 t.0.1 t.1 (bounded.control_in address size packet buf h)
              (kept address size packet (data_in buf) h i)
          where
            split :
                (r : Result UsbError ℕ) (b : Bytes) (h' : H)
                → ((n : ℕ) → r ≡ ok n → n ≤ length b)
                → I h'
                → Within I (control_result driver ((r, b), h'))
            split (ok n) b h' f j = (f n refl, j)
            split (err e) b h' f j = j

        parse_reply-Keeps :
            {V : Type 0} (visitor : DescriptorVisitor V) (v : V)
            (o : Outcome (Result UsbError (ℕ × Bytes) × H))
            → Within I o
            → Keeps I (and_then (parse_reply driver visitor v) o)
        parse_reply-Keeps visitor v (returns (ok (n, buf), h)) (w, i) =
            let inside : leb n (length buf) ≡ true = ground arith in
            let (v', e) = parse_descriptors_returns visitor (take n buf) v in rw (inside, e) i
        parse_reply-Keeps visitor v (returns (err e, h)) w = w
        parse_reply-Keeps visitor v panics w = elim w [ ]

        get_configuration-Keeps :
            {V : Type 0} (device : UnconfiguredDevice) (visitor : DescriptorVisitor V) (v : V)
            (h : H)
            → I h
            → Keeps I (get_configuration driver device visitor v h)
        unfolding get_configuration
        get_configuration-Keeps device visitor v h i =
            parse_reply-Keeps visitor v _
              (control-Within device.usb_address device.packet_size_ep0 _ (replicate 64 0) h i)

        pub get_basic_configuration-Keeps :
            (device : UnconfiguredDevice) (h : H)
            → I h
            → Keeps I (get_basic_configuration driver device h)
        unfolding get_basic_configuration
        get_basic_configuration-Keeps device h i =
            and_then-Keeps _ (get_configuration driver device _ _ h)
              (get_configuration-Keeps device _ _ h i) (λ bd h' j. decided bd h' j)
          where
            decided :
                (bd : BasicConfiguration) (h' : H)
                → I h'
                → Keeps I (
                    (if bd.num_configurations == 0 || bd.configuration_value == 0
                        then fail UsbError.protocol_error
                        else ret bd)
                      h')
            decided bd h' j =
                elim (Bool-cases (bd.num_configurations == 0 || bd.configuration_value == 0)) [
                  | inl q ↦ rw q j
                  | inr q ↦ rw q j
                ]

        pub configure-Keeps :
            (device : UnconfiguredDevice) (value : ℕ) (h : H)
            → I h
            → Keeps I (configure driver device value h)
        unfolding configure
        configure-Keeps device value h i =
            and_then-Keeps _ (control driver device.usb_address device.packet_size_ep0 _ no_data h)
              (control-Keeps _ _ _ no_data h i)
              (λ r h' j.
                and_then-Keeps _ (get_configuration driver device _ _ h')
                  (get_configuration-Keeps device _ _ h' j) (λ e h'' k. k))
