-- ===== src/UsbHost/Bus/Device.antt =====
-- cotton-usb-host/src/usb_bus.rs: the handles of devices and endpoints.
pub mod Laws
pub mod Configured
mod Tests
use cotton.Prelude.{
  ℕ, ◌+◌, ◌-◌, ◌^◌, ◌%◌, Bool, true, false, not, ◌&&◌, bit_and, bit_or, ◌==◌, ltb, if◌then◌else◌,
}
use cotton.Prelude.Result.{Result, ok, err}
use cotton.UsbHost.BitSet.{BitSet}
use cotton.UsbHost.HostController.{UsbError, UsbSpeed}
use cotton.UsbHost.Wire.{DescriptorVisitor}
use cotton.UsbHost.Wire.Descriptors.{ConfigurationDescriptor, EndpointDescriptor}

pub record DeviceInfo : Type 0 where
  pub vid : ℕ
  pub pid : ℕ
  pub class : ℕ
  pub subclass : ℕ

pub record UnaddressedDevice : Type 0 where
  pub usb_speed : UsbSpeed
  pub packet_size_ep0 : ℕ

pub record UnconfiguredDevice : Type 0 where
  pub usb_address : ℕ
  pub usb_speed : UsbSpeed
  pub packet_size_ep0 : ℕ

-- `BulkIn` and `BulkOut` have the same fields; the toggle is a `Cell`.
pub record BulkIn : Type 0 where
  pub usb_address : ℕ
  pub usb_speed : UsbSpeed
  pub endpoint : ℕ
  pub data_toggle : Bool

pub record BulkOut : Type 0 where
  pub usb_address : ℕ
  pub usb_speed : UsbSpeed
  pub endpoint : ℕ
  pub data_toggle : Bool

pub record UsbDevice : Type 0 where
  pub usb_address : ℕ
  pub usb_speed : UsbSpeed
  pub packet_size_ep0 : ℕ
  pub in_endpoints_bitmap : ℕ
  pub out_endpoints_bitmap : ℕ

unfoldable pub in_endpoints : UsbDevice → BitSet
in_endpoints d = record { bits = d.in_endpoints_bitmap }

unfoldable pub out_endpoints : UsbDevice → BitSet
out_endpoints d = record { bits = d.out_endpoints_bitmap }

-- `ep > 0 && ep < 16 && (bitmap & (1 << ep)) != 0`
abbrev pub is_endpoint : ℕ → ℕ → Bool
is_endpoint bitmap ep = ltb 0 ep && (ltb ep 16 && not (bit_and bitmap (2 ^ ep) == 0))

-- `bitmap &= !(1 << ep)` on a u16
abbrev pub without : ℕ → ℕ → ℕ
without bitmap ep = bit_and bitmap (2 ^ 16 - 1 - 2 ^ ep)

unfoldable pub open_in_endpoint : UsbDevice → ℕ → Result UsbError BulkIn × UsbDevice
open_in_endpoint d ep =
    if is_endpoint d.in_endpoints_bitmap ep
    then (
      ok (record {
        usb_address = d.usb_address;
        usb_speed = d.usb_speed;
        endpoint = ep;
        data_toggle = false;
      }),
      record d { in_endpoints_bitmap = without d.in_endpoints_bitmap ep },
    )
    else (err UsbError.no_such_endpoint, d)

unfoldable pub open_out_endpoint : UsbDevice → ℕ → Result UsbError BulkOut × UsbDevice
open_out_endpoint d ep =
    if is_endpoint d.out_endpoints_bitmap ep
    then (
      ok (record {
        usb_address = d.usb_address;
        usb_speed = d.usb_speed;
        endpoint = ep;
        data_toggle = false;
      }),
      record d { out_endpoints_bitmap = without d.out_endpoints_bitmap ep },
    )
    else (err UsbError.no_such_endpoint, d)

pub record BasicConfiguration : Type 0 where
  pub num_configurations : ℕ
  pub configuration_value : ℕ
  pub in_endpoints : ℕ
  pub out_endpoints : ℕ

-- `1 << (address & 15)`
abbrev pub endpoint_bit : EndpointDescriptor → ℕ
endpoint_bit e = 2 ^ bit_and e.b_endpoint_address 15

abbrev pub is_in : EndpointDescriptor → Bool
is_in e = bit_and e.b_endpoint_address 0x80 == 0x80

-- The count is a u8, and wraps as the release build does.
unfoldable pub basic_configuration : DescriptorVisitor BasicConfiguration
basic_configuration = record {
  on_configuration = λ c b. record b {
    num_configurations = (b.num_configurations + 1) % 256;
    configuration_value = c.b_configuration_value;
  };
  on_interface = λ i b. b;
  on_endpoint = λ e b.
      if is_in e
      then record b { in_endpoints = bit_or b.in_endpoints (endpoint_bit e) }
      else record b { out_endpoints = bit_or b.out_endpoints (endpoint_bit e) };
  on_other = λ d b. b;
}

pub record SpecificConfiguration : Type 0 where
  pub configuration_value : ℕ
  pub ok_now : Bool
  pub in_endpoints : ℕ
  pub out_endpoints : ℕ

unfoldable pub new_specific : ℕ → SpecificConfiguration
new_specific configuration_value = record {
  configuration_value = configuration_value;
  ok_now = false;
  in_endpoints = 0;
  out_endpoints = 0;
}

unfoldable pub specific_configuration : DescriptorVisitor SpecificConfiguration
specific_configuration = record {
  on_configuration = λ c s. record s { ok_now = c.b_configuration_value == s.configuration_value };
  on_interface = λ i s. s;
  on_endpoint = λ e s.
      if s.ok_now
      then (if is_in e
          then record s { in_endpoints = bit_or s.in_endpoints (endpoint_bit e) }
          else record s { out_endpoints = bit_or s.out_endpoints (endpoint_bit e) })
      else s;
  on_other = λ d s. s;
}
