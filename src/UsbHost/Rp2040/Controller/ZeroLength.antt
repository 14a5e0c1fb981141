-- ===== src/UsbHost/Rp2040/Controller/ZeroLength.antt =====
-- cotton-usb-host/src/host/rp2040.rs: the zero-length packet of an `Out` transfer.
use cotton.Prelude.{
  ℕ, zero, suc, ◌+◌, ◌-◌, ◌%◌, ◌^◌, ◌<◌, ◌≡◌, refl, Bool, true, false, length, ltb, leb, ◌==◌, List,
  arith,
}
use native.Mathlib.Nat.{mod_self}
use cotton.Prelude.Bytes.{Bytes}
use cotton.UsbHost.HostController.{variable_size}
use cotton.UsbHost.Rp2040.Packetiser.{
  new_out, needs_zero_size_packet, prepare_out, next_packet, copy,
}
use cotton.UsbHost.Rp2040.Pac.{Pac}
use cotton.UsbHost.Rp2040.Polls.{panicked}
use cotton.UsbHost.Rp2040.Transfer.{Usb, packets_of}
use cotton.UsbHost.Rp2040.Inner.{control_transfer_inner, start_transfer, enter, prepare_one}
use cotton.UsbHost.Rp2040.Controller.{write_bulk}

-- A bulk `Out` transfer of variable size whose data fill exactly one packet, of 1 to 255 bytes,
-- panics before it sends anything: its zero-length packet goes to the second buffer, where the code
-- takes the address of the byte after the data.
pub write_bulk-panics :
    {H W : Type 0} (pac : Pac H W) (task : W) (address endpoint packet_size : ℕ) (buf : Bytes)
    (toggle : Bool) (later : List (Usb H W → Usb H W)) (s : Usb H W)
    → length buf ≡ packet_size
    → 0 < packet_size
    → packet_size < 256
    → write_bulk pac task address endpoint packet_size buf variable_size toggle later s ≡ panicked
unfolding new_out needs_zero_size_packet control_transfer_inner packets_of enter prepare_one
    prepare_out next_packet start_transfer
write_bulk-panics pac task address endpoint zero buf toggle later s e pos l = absurd (omega arith)
write_bulk-panics pac task address endpoint (suc n) buf toggle later s e pos l =
    let cut : suc n % 2 ^ 16 ≡ suc n = omega arith in
    let size : suc n % 2 ^ 8 ≡ suc n = omega arith in
    let multiple : (suc n % suc n == 0) ≡ true = ground (arith, mod_self (suc n)) in
    let some_left : (suc n == 0) ≡ false = ground arith in
    let not_below : ltb (suc n) (suc n) ≡ false = ground arith in
    let start : ltb 0 (suc n) ≡ true = ground arith in
    let fits : leb (0 + suc n) (suc n) ≡ true = ground arith in
    let gone : suc n - suc n ≡ 0 = omega arith in
    let past : ltb (0 + suc n) (suc n) ≡ false = ground arith in
    rw
      (
        e, cut, size, multiple, some_left, not_below, start, copy, e, start, fits, gone, copy, e,
        past,
      )
      refl
