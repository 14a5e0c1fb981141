-- ===== src/Msc/Identify.antt =====
-- cotton-usb-host-msc/src/mass_storage.rs: how a mass-storage device is recognised.
use cotton.Prelude.{ℕ, Option, some, ◌&&◌, ◌==◌, if◌then◌else◌}
use cotton.UsbHost.Wire.{DescriptorVisitor}

pub record IdentifyMassStorage : Type 0 where
  pub current_configuration : Option ℕ
  pub msc_configuration : Option ℕ

unfoldable pub identifier : DescriptorVisitor IdentifyMassStorage
identifier = record {
  on_configuration = λ c s. record s { current_configuration = some c.b_configuration_value };
  on_interface = λ i s.
      if i.b_interface_class == 8 && i.b_interface_protocol == 0x50
      then record s { msc_configuration = s.current_configuration }
      else s;
  on_endpoint = λ e s. s;
  on_other = λ d s. s;
}

unfoldable pub identify : IdentifyMassStorage → Option ℕ
identify s = s.msc_configuration
