-- ===== src/Msc/Transport/Tests.antt =====
-- cotton-usb-host-msc/src/mass_storage.rs on concrete inputs.
use cotton.Prelude.{ℕ, ◌+◌, ◌≡◌, refl, false, [], ◌∷◌, length, arith}
use cotton.Prelude.Bytes.{Bytes}
use cotton.Prelude.Outcome.{returns}
use cotton.Prelude.Result.{ok, err}
use cotton.Scsi.Transport.{data_in}
use cotton.Scsi.Commands.{read10}
use cotton.Scsi.Device.{issue}
use cotton.Scsi.Device.Errors.{IsHonest, Ends}
use cotton.Scsi.Device.Requests.{length-read10}
use cotton.UsbHost.HostController.{UsbError, HostController, UsbSpeed}
use cotton.UsbHost.Bus.Requests.{bulk_in_transfer, bulk_out_transfer}
use cotton.Msc.Wrapper as Wrapper
use cotton.Msc.Wrapper.OnWire.{OnWire, new-OnWire}
use cotton.Msc.Transport.{
  MassStorage, send_wrapper, data_phase, settle, receive_status, command, mass_storage,
}
use cotton.Msc.Transport.Honest.{IsBounded, mass_storage-IsHonest, issue-mass_storage-Ends}

new-OnWire_example : OnWire 3 512 0x80 (read10 7 1) (Wrapper.new 3 512 0x80 (read10 7 1))
new-OnWire_example =
    new-OnWire 3 512 0x80 (read10 7 1) (omega arith) (omega arith)
      (omega (arith, length-read10 7 1))

-- A disk whose state counts the transfers: it takes every wrapper, fills a buffer, and reports status 0.
abbrev filled : Bytes → Bytes
filled [] = []
filled (b ∷ bs) = 0 ∷ filled bs

length-filled : (bs : Bytes) → length (filled bs) ≡ length bs
length-filled [] = refl
length-filled (b ∷ bs) = omega (arith, length-filled bs)

abbrev disk : HostController ℕ (Unit {0})
disk = record {
  reset_root_port = λ b h. h;
  control_transfer = λ a s p d h. ((ok 0, []), h);
  bulk_in_transfer = λ a e s buf k t h.
      (record { result = ok (length buf); buffer = filled buf; data_toggle = t }, h + 1);
  bulk_out_transfer =
      λ a e s buf k t h. (record { result = ok (length buf); buffer = []; data_toggle = t }, h + 1);
  try_alloc_interrupt_pipe = λ a b c d h. (err UsbError.all_pipes_in_use, h);
  delay_ms = λ n h. h;
}

disk-IsBounded : IsBounded disk
disk-IsBounded = record {
  bulk_in =
      λ a e s buf k t h n q. (let p : length buf ≡ n = cc in omega (arith, length-filled buf));
}

abbrev stick : MassStorage
stick = record {
  bulk_in = record {
    usb_address = 31;
    usb_speed = UsbSpeed.full12;
    endpoint = 1;
    data_toggle = false;
  };
  bulk_out = record {
    usb_address = 31;
    usb_speed = UsbSpeed.full12;
    endpoint = 2;
    data_toggle = false;
  };
  tag = 1;
}

reads :
    command disk (read10 7 1) (data_in (9 ∷ 9 ∷ [])) (stick, 0)
    ≡ returns (record { result = ok 2; buffer = 0 ∷ 0 ∷ [] }, (record stick { tag = 3 }, 3))
unfolding command send_wrapper data_phase settle receive_status bulk_in_transfer bulk_out_transfer
    read10 Wrapper.new Wrapper.bytes_of
reads = refl

mass_storage-IsHonest_example : IsHonest (mass_storage disk)
mass_storage-IsHonest_example = mass_storage-IsHonest disk disk-IsBounded

issue-mass_storage-Ends_example :
    Ends
      (mass_storage disk)
      (read10 7 1)
      (data_in (9 ∷ []))
      (stick, 0)
      (issue (mass_storage disk) (read10 7 1) (data_in (9 ∷ [])) (stick, 0))
issue-mass_storage-Ends_example =
    issue-mass_storage-Ends disk disk-IsBounded (read10 7 1) (data_in (9 ∷ [])) (stick, 0)
      (omega (arith, length-read10 7 1))
