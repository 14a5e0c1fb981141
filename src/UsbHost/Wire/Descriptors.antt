-- ===== src/UsbHost/Wire/Descriptors.antt =====
-- cotton-usb-host/src/wire.rs: the packets and descriptors of chapter 9 of the USB specification.
-- A field of two bytes is a number where the source has a u16, and stays in its two bytes where the
-- source keeps `[u8; 2]`.
use cotton.Prelude.{ℕ, Option, none, some, [], ◌∷◌}
use cotton.Prelude.Bytes.{Bytes}

pub record SetupPacket : Type 0 where
  pub bm_request_type : ℕ
  pub b_request : ℕ
  pub w_value : ℕ
  pub w_index : ℕ
  pub w_length : ℕ

pub record ConfigurationDescriptor : Type 0 where
  pub b_length : ℕ
  pub b_descriptor_type : ℕ
  pub w_total_length : ℕ × ℕ
  pub b_num_interfaces : ℕ
  pub b_configuration_value : ℕ
  pub i_configuration : ℕ
  pub bm_attributes : ℕ
  pub b_max_power : ℕ

pub record InterfaceDescriptor : Type 0 where
  pub b_length : ℕ
  pub b_descriptor_type : ℕ
  pub b_interface_number : ℕ
  pub b_alternate_setting : ℕ
  pub b_num_endpoints : ℕ
  pub b_interface_class : ℕ
  pub b_interface_sub_class : ℕ
  pub b_interface_protocol : ℕ
  pub i_interface : ℕ

pub record EndpointDescriptor : Type 0 where
  pub b_length : ℕ
  pub b_descriptor_type : ℕ
  pub b_endpoint_address : ℕ
  pub bm_attributes : ℕ
  pub w_max_packet_size : ℕ × ℕ
  pub b_interval : ℕ

-- `bytemuck::try_from_bytes` at the three types.
unfoldable pub configuration_from_bytes : Bytes → Option ConfigurationDescriptor
configuration_from_bytes (a ∷ b ∷ c ∷ d ∷ e ∷ f ∷ g ∷ h ∷ i ∷ []) = some (record {
  b_length = a;
  b_descriptor_type = b;
  w_total_length = (c, d);
  b_num_interfaces = e;
  b_configuration_value = f;
  i_configuration = g;
  bm_attributes = h;
  b_max_power = i;
})
configuration_from_bytes _ = none

unfoldable pub interface_from_bytes : Bytes → Option InterfaceDescriptor
interface_from_bytes (a ∷ b ∷ c ∷ d ∷ e ∷ f ∷ g ∷ h ∷ i ∷ []) = some (record {
  b_length = a;
  b_descriptor_type = b;
  b_interface_number = c;
  b_alternate_setting = d;
  b_num_endpoints = e;
  b_interface_class = f;
  b_interface_sub_class = g;
  b_interface_protocol = h;
  i_interface = i;
})
interface_from_bytes _ = none

unfoldable pub endpoint_from_bytes : Bytes → Option EndpointDescriptor
endpoint_from_bytes (a ∷ b ∷ c ∷ d ∷ e ∷ f ∷ g ∷ []) = some (record {
  b_length = a;
  b_descriptor_type = b;
  b_endpoint_address = c;
  bm_attributes = d;
  w_max_packet_size = (e, f);
  b_interval = g;
})
endpoint_from_bytes _ = none

abbrev pub device_to_host : ℕ
device_to_host = 0x80

abbrev pub host_to_device : ℕ
host_to_device = 0

abbrev pub class_request : ℕ
class_request = 0x20

abbrev pub recipient_other : ℕ
recipient_other = 3

abbrev pub get_status : ℕ
get_status = 0

abbrev pub clear_feature : ℕ
clear_feature = 1

abbrev pub set_feature : ℕ
set_feature = 3

abbrev pub set_address : ℕ
set_address = 5

abbrev pub get_descriptor : ℕ
get_descriptor = 6

abbrev pub set_configuration : ℕ
set_configuration = 9

abbrev pub device_descriptor : ℕ
device_descriptor = 1

abbrev pub configuration_descriptor : ℕ
configuration_descriptor = 2

abbrev pub interface_descriptor : ℕ
interface_descriptor = 4

abbrev pub endpoint_descriptor : ℕ
endpoint_descriptor = 5

abbrev pub hub_descriptor : ℕ
hub_descriptor = 0x29

abbrev pub hub_classcode : ℕ
hub_classcode = 9

abbrev pub port_reset : ℕ
port_reset = 4

abbrev pub port_power : ℕ
port_power = 8
