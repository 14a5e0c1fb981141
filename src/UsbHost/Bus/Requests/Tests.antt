-- ===== src/UsbHost/Bus/Requests/Tests.antt =====
-- cotton-usb-host/src/usb_bus.rs: the requests on a concrete controller.
use cotton.Prelude.{ℕ, ◌+◌, ◌≡◌, refl, List, [], ◌∷◌, length, arith}
use cotton.UsbHost.Wire.Expected.{Descriptor, encode_all}
use cotton.Prelude.Bytes.{Bytes}
use cotton.Prelude.Outcome.{returns}
use cotton.Prelude.Result.{Result, ok, err}
use cotton.UsbHost.HostController.{
  UsbError, UsbSpeed, DataPhase, data_in, data_out, no_data, HostController,
}
use cotton.UsbHost.Wire.{visit, parse_from, parse_descriptors}
use cotton.UsbHost.Wire.Descriptors.{
  configuration_from_bytes, interface_from_bytes, endpoint_from_bytes,
}
use cotton.UsbHost.Bus.Device.{
  UnaddressedDevice, UnconfiguredDevice, specific_configuration, new_specific,
}
use cotton.UsbHost.Bus.Requests.{
  new_device, set_address, get_basic_configuration, get_configuration, configure,
}
use cotton.UsbHost.Bus.Requests.Keeps.{IsBounded}
use cotton.UsbHost.Bus.Requests.Returns.{Returns, set_up-Returns}

-- A stick with one configuration, an IN endpoint 1 and an OUT endpoint 2; its state counts requests.
abbrev descriptors : List Descriptor
descriptors =
    record { type_code = 2; body = 32 ∷ 0 ∷ 1 ∷ 1 ∷ 0 ∷ 0x80 ∷ 50 ∷ [] }
    ∷ record { type_code = 4; body = 0 ∷ 0 ∷ 2 ∷ 8 ∷ 6 ∷ 0x50 ∷ 0 ∷ [] }
    ∷ record { type_code = 5; body = 0x81 ∷ 2 ∷ 64 ∷ 0 ∷ 0 ∷ [] }
    ∷ record { type_code = 5; body = 2 ∷ 2 ∷ 64 ∷ 0 ∷ 0 ∷ [] }
    ∷ []

abbrev configuration : Bytes
configuration = encode_all descriptors

abbrev answer : DataPhase → Result UsbError ℕ × Bytes
answer (data_in buf) = (ok (length configuration), configuration)
answer (data_out buf) = (ok (length buf), [])
answer no_data = (ok 0, [])

abbrev stick : HostController ℕ (Unit {0})
stick = record {
  reset_root_port = λ b h. h;
  control_transfer = λ address size packet phase h. (answer phase, h + 1);
  bulk_in_transfer = λ a e s buf k t h.
      (record { result = err UsbError.timeout; buffer = buf; data_toggle = t }, h);
  bulk_out_transfer = λ a e s buf k t h.
      (record { result = err UsbError.timeout; buffer = []; data_toggle = t }, h);
  try_alloc_interrupt_pipe = λ a b c d h. (err UsbError.all_pipes_in_use, h);
  delay_ms = λ n h. h;
}

stick-IsBounded : IsBounded stick
stick-IsBounded = record {
  control_in = λ a s packet buf h n q. (let p : 32 ≡ n = cc in omega arith);
}

abbrev unaddressed : UnaddressedDevice
unaddressed = record { usb_speed = UsbSpeed.full12; packet_size_ep0 = 64 }

abbrev unconfigured : UnconfiguredDevice
unconfigured = record { usb_address = 31; usb_speed = UsbSpeed.full12; packet_size_ep0 = 64 }

configured :
    configure stick unconfigured 1 0
    ≡ returns (
      ok (record {
        usb_address = 31;
        usb_speed = UsbSpeed.full12;
        packet_size_ep0 = 64;
        in_endpoints_bitmap = 2;
        out_endpoints_bitmap = 4;
      }),
      2,
    )
unfolding configure get_configuration parse_descriptors parse_from visit configuration_from_bytes
    interface_from_bytes endpoint_from_bytes specific_configuration new_specific
configured = refl

set_up-Returns_example :
    Returns (new_device stick UsbSpeed.full12 0)
    × Returns (set_address stick unaddressed 31 0)
    × Returns (get_basic_configuration stick unconfigured 0)
    × Returns (configure stick unconfigured 1 0)
set_up-Returns_example =
    set_up-Returns stick stick-IsBounded UsbSpeed.full12 unaddressed unconfigured 31 1 0
