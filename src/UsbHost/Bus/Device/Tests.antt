-- ===== src/UsbHost/Bus/Device/Tests.antt =====
-- cotton-usb-host/src/usb_bus.rs on concrete inputs.
use cotton.Prelude.{◌≡◌, refl}
use cotton.Prelude.Result.{err}
use cotton.UsbHost.HostController.{UsbError, UsbSpeed}
use cotton.UsbHost.Bus.Device.{UsbDevice, open_in_endpoint}

-- A device with the IN endpoints 1 and 2.
abbrev stick : UsbDevice
stick = record {
  usb_address = 31;
  usb_speed = UsbSpeed.full12;
  packet_size_ep0 = 64;
  in_endpoints_bitmap = 6;
  out_endpoints_bitmap = 4;
}

opened_once : (open_in_endpoint (open_in_endpoint stick 2).1 2).0 ≡ err UsbError.no_such_endpoint
unfolding open_in_endpoint
opened_once = refl
