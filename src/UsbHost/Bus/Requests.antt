-- ===== src/UsbHost/Bus/Requests.antt =====
-- cotton-usb-host/src/usb_bus.rs: the transfers of a `UsbBus` to one device.
pub mod Keeps
pub mod Returns
pub mod Configure
mod Tests
use cotton.Prelude.{
  ℕ, ◌*◌, ◌^◌, false, ◌||◌, Option, none, some, [], ◌∷◌, length, take, get_or, replicate, bit_or,
  ◌==◌, ltb, leb, if◌then◌else◌,
}
use cotton.Prelude.Bytes.{Bytes, from_le_bytes}
use cotton.Prelude.Outcome.{Outcome, returns, panics}
use cotton.Prelude.Result.{Result, ok, err}
use cotton.UsbHost.HostController.{
  UsbError, UsbSpeed, DataPhase, data_in, no_data, TransferType, HostController, Usb, ◌>>=◌, ret,
  fail,
}
use cotton.UsbHost.Wire.{DescriptorVisitor, parse_descriptors}
use cotton.UsbHost.Wire.Descriptors.{
  SetupPacket, device_to_host, host_to_device, class_request, recipient_other, get_status,
  clear_feature, set_feature, get_descriptor, set_configuration, device_descriptor,
  configuration_descriptor,
}
use cotton.UsbHost.Wire.Descriptors as Wire
use cotton.UsbHost.Bus.Device.{
  DeviceInfo, UnaddressedDevice, UnconfiguredDevice, BulkIn, BulkOut, UsbDevice, BasicConfiguration,
  basic_configuration, new_specific, specific_configuration,
}

abbrev pub setup : ℕ → ℕ → ℕ → ℕ → ℕ → SetupPacket
setup request_type request value index len = record {
  bm_request_type = request_type;
  b_request = request;
  w_value = value;
  w_index = index;
  w_length = len;
}

module _ {H P : Type 0} (driver : HostController H P) where
  abbrev pub control_result :
      (Result UsbError ℕ × Bytes) × H → Outcome (Result UsbError (ℕ × Bytes) × H)
  control_result ((ok n, buf), h) = returns (ok (n, buf), h)
  control_result ((err e, buf), h) = returns (err e, h)

  -- `self.driver.control_transfer(…).await`, with the buffer that it leaves
  abbrev pub control : ℕ → ℕ → SetupPacket → DataPhase → Usb H (ℕ × Bytes)
  control address packet_size packet phase h =
      control_result (driver.control_transfer address packet_size packet phase h)

  -- A check of the size of a reply, `if sz < n { return Err(ProtocolError) }`
  abbrev pub at_least : ℕ → ℕ × Bytes → Usb H Bytes
  at_least n (sz, buf) = if ltb sz n then fail UsbError.protocol_error else ret buf

  unfoldable pub new_device : UsbSpeed → Usb H (UnaddressedDevice × DeviceInfo)
  new_device speed = do
    r ←
        control 0 8 (setup device_to_host get_descriptor (device_descriptor * 2 ^ 8) 0 8)
          (data_in (replicate 18 0))
    prefix ← at_least 8 r
    let packet_size_ep0 = get_or prefix 7 0
    r ←
        control 0 packet_size_ep0
          (setup device_to_host get_descriptor (device_descriptor * 2 ^ 8) 0 18) (data_in prefix)
    descriptors ← at_least 18 r
    ret (
      record { usb_speed = speed; packet_size_ep0 = packet_size_ep0 },
      record {
        vid = from_le_bytes (get_or descriptors 8 0 ∷ get_or descriptors 9 0 ∷ []);
        pid = from_le_bytes (get_or descriptors 10 0 ∷ get_or descriptors 11 0 ∷ []);
        class = get_or descriptors 4 0;
        subclass = get_or descriptors 5 0;
      },
    )

  unfoldable pub set_address : UnaddressedDevice → ℕ → Usb H UnconfiguredDevice
  set_address device address = do
    r ← control 0 device.packet_size_ep0 (setup host_to_device Wire.set_address address 0 0) no_data
    ret (record {
      usb_address = address;
      usb_speed = device.usb_speed;
      packet_size_ep0 = device.packet_size_ep0;
    })

  unfoldable pub control_transfer : UsbDevice → SetupPacket → DataPhase → Usb H (ℕ × Bytes)
  control_transfer device packet phase =
      control device.usb_address device.packet_size_ep0 packet phase

  -- The endpoint's toggle is reset once the device has agreed.
  unfoldable pub clear_halt : BulkIn → Usb H BulkIn
  clear_halt ep = do
    r ← control ep.usb_address 8 (setup 2 clear_feature 0 (bit_or ep.endpoint 0x80) 0) no_data
    ret (record ep { data_toggle = false })

  -- The endpoint comes back with the toggle that the controller left.
  unfoldable pub bulk_in_transfer :
      BulkIn → Bytes → TransferType → H → (Result UsbError ℕ × Bytes × BulkIn) × H
  bulk_in_transfer ep buf kind h =
      let (r, h') =
        driver.bulk_in_transfer ep.usb_address ep.endpoint 64 buf kind ep.data_toggle h in
      ((r.result, r.buffer, record ep { data_toggle = r.data_toggle }), h')

  unfoldable pub bulk_out_transfer :
      BulkOut → Bytes → TransferType → H → (Result UsbError ℕ × BulkOut) × H
  bulk_out_transfer ep buf kind h =
      let (r, h') =
        driver.bulk_out_transfer ep.usb_address ep.endpoint 64 buf kind ep.data_toggle h in
      ((r.result, record ep { data_toggle = r.data_toggle }), h')

  abbrev pub parsed : {V : Type 0} → Outcome (Option V) → Usb H V
  parsed panics h = panics
  parsed (returns none) h = panics
  parsed (returns (some v)) h = returns (ok v, h)

  -- `parse_descriptors(&buf[0..sz], visitor)`: the slice panics beyond the buffer.
  abbrev pub parse_reply : {V : Type 0} → DescriptorVisitor V → V → ℕ × Bytes → Usb H V
  parse_reply visitor v (sz, buf) h =
      if leb sz (length buf) then parsed (parse_descriptors visitor (take sz buf) v) h else panics

  -- Returns the visitor as the descriptors leave it.
  unfoldable pub get_configuration :
      {V : Type 0} → UnconfiguredDevice → DescriptorVisitor V → V → Usb H V
  get_configuration device visitor v = do
    r ←
        control device.usb_address device.packet_size_ep0
          (setup device_to_host get_descriptor (configuration_descriptor * 2 ^ 8) 0 64)
          (data_in (replicate 64 0))
    parse_reply visitor v r

  abbrev empty_configuration : BasicConfiguration
  empty_configuration = record {
    num_configurations = 0;
    configuration_value = 0;
    in_endpoints = 0;
    out_endpoints = 0;
  }

  unfoldable pub get_basic_configuration : UnconfiguredDevice → Usb H BasicConfiguration
  get_basic_configuration device = do
    bd ← get_configuration device basic_configuration empty_configuration
    if bd.num_configurations == 0 || bd.configuration_value == 0
        then fail UsbError.protocol_error
        else ret bd

  unfoldable pub configure : UnconfiguredDevice → ℕ → Usb H UsbDevice
  configure device configuration_value = do
    r ←
        control device.usb_address device.packet_size_ep0
          (setup host_to_device set_configuration configuration_value 0 0) no_data
    endpoints ← get_configuration device specific_configuration (new_specific configuration_value)
    ret (record {
      usb_address = device.usb_address;
      usb_speed = device.usb_speed;
      packet_size_ep0 = device.packet_size_ep0;
      in_endpoints_bitmap = endpoints.in_endpoints;
      out_endpoints_bitmap = endpoints.out_endpoints;
    })

  unfoldable pub get_hub_port_status : ℕ → ℕ → Usb H (ℕ × ℕ)
  get_hub_port_status hub_address port = do
    r ←
        control hub_address 8
          (setup (bit_or (bit_or device_to_host class_request) recipient_other) get_status 0 port 4)
          (data_in (replicate 4 0))
    ret (
      from_le_bytes (get_or r.1 0 0 ∷ get_or r.1 1 0 ∷ []),
      from_le_bytes (get_or r.1 2 0 ∷ get_or r.1 3 0 ∷ []),
    )

  unfoldable pub clear_port_feature : ℕ → ℕ → ℕ → Usb H (Unit {0})
  clear_port_feature hub_address port feature = do
    r ←
        control hub_address 8
          (setup (bit_or (bit_or host_to_device class_request) recipient_other) clear_feature
            feature port 0)
          no_data
    ret tt

  unfoldable pub set_port_feature : ℕ → ℕ → ℕ → Usb H (Unit {0})
  set_port_feature hub_address port feature = do
    r ←
        control hub_address 8
          (setup (bit_or (bit_or host_to_device class_request) recipient_other) set_feature feature
            port 0)
          no_data
    ret tt
