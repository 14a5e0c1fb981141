-- ===== src/UsbHost/Bus/Requests/Returns.antt =====
-- cotton-usb-host/src/usb_bus.rs: the requests that set a device up do not panic.
use cotton.Prelude.{ℕ}
use cotton.Prelude.Outcome.{Outcome}
use cotton.Prelude.Result.{Result}
use cotton.UsbHost.HostController.{UsbError, UsbSpeed, HostController}
use cotton.UsbHost.Bus.Device.{UnaddressedDevice, UnconfiguredDevice}
use cotton.UsbHost.Bus.Requests.{new_device, set_address, get_basic_configuration, configure}
use cotton.UsbHost.Bus.Requests.Keeps.{
  IsBounded, Keeps, new_device-Keeps, set_address-Keeps, get_basic_configuration-Keeps,
  configure-Keeps,
}

-- The computation ends, with a result or an error, and does not panic.
abbrev pub Returns : {H A : Type 0} → Outcome (Result UsbError A × H) → Type 0
Returns o = Keeps (λ h. Unit {0}) o

module _ {H P : Type 0} (driver : HostController H P) (bounded : IsBounded driver) where
  -- Over a controller that never claims more bytes of a control transfer than the buffer holds, the
  -- requests that set a device up never panic, whatever the device sends: reading its device
  -- descriptor, giving it an address, reading its configuration, and configuring it.
  pub set_up-Returns :
      (speed : UsbSpeed) (new : UnaddressedDevice) (device : UnconfiguredDevice) (address value : ℕ)
      (h : H)
      → Returns (new_device driver speed h)
        × Returns (set_address driver new address h)
        × Returns (get_basic_configuration driver device h)
        × Returns (configure driver device value h)
  set_up-Returns speed new device address value h = (
    new_device-Keeps _ driver (λ a z p d h i. tt) speed h tt,
    set_address-Keeps _ driver (λ a z p d h i. tt) new address h tt,
    get_basic_configuration-Keeps _ driver (λ a z p d h i. tt) bounded device h tt,
    configure-Keeps _ driver (λ a z p d h i. tt) bounded device value h tt,
  )
