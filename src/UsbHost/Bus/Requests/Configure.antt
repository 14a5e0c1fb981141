-- ===== src/UsbHost/Bus/Requests/Configure.antt =====
-- cotton-usb-host/src/usb_bus.rs: what `configure` makes of a device's descriptors.
use cotton.Prelude.{ℕ, ◌*◌, ◌^◌, ◌≤◌, ◌≡◌, List, length, take, replicate}
use cotton.Prelude.Bytes.{Bytes}
use cotton.Prelude.Result.{ok}
use cotton.UsbHost.HostController.{data_in, no_data, HostController}
use cotton.UsbHost.Wire.Descriptors.{
  host_to_device, set_configuration, device_to_host, get_descriptor, configuration_descriptor,
}
use cotton.UsbHost.Wire.Expected.{Descriptor, encode_all}
use cotton.UsbHost.Bus.Device.{UnconfiguredDevice}
use cotton.UsbHost.Bus.Requests.{setup}

-- The device takes the configuration, and answers the request for its descriptors with these.
pub record Answers {H P : Type 0} (driver : HostController H P) (device : UnconfiguredDevice)
    (value : ℕ) (ds : List Descriptor) (h h' : H) : Type 0 where
  pub taken : ℕ
  pub rest : Bytes
  pub between : H
  pub size : ℕ
  pub buffer : Bytes
  pub takes :
      driver.control_transfer device.usb_address device.packet_size_ep0
        (setup host_to_device set_configuration value 0 0)
        no_data
        h
      ≡ ((ok taken, rest), between)
  pub sends :
      driver.control_transfer device.usb_address device.packet_size_ep0
        (setup device_to_host get_descriptor (configuration_descriptor * 2 ^ 8) 0 64)
        (data_in (replicate 64 0))
        between
      ≡ ((ok size, buffer), h')
  pub fits : size ≤ length buffer
  pub content : take size buffer ≡ encode_all ds
