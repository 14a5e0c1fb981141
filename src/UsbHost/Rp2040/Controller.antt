-- ===== src/UsbHost/Rp2040/Controller.antt =====
-- cotton-usb-host/src/host/rp2040.rs: the transfers of the `HostController` that the chip provides.
-- A `usize` that is cast to `u16` or `u8` is cut.
pub mod Reception
pub mod Delivery
pub mod ZeroLength
pub mod Bounds
use cotton.Prelude.{ℕ, ◌%◌, ◌^◌, Bool, true, false, ltb, [], ◌∷◌, length, if◌then◌else◌, not}
use cotton.Prelude.Bytes.{Bytes}
use cotton.Prelude.Result.{Result, ok, err}
use cotton.UsbHost.HostController.{
  UsbError, buffer_too_small, DataPhase, data_in, data_out, no_data, TransferType, fixed_size,
  variable_size, Transfer,
}
use cotton.UsbHost.Wire.Descriptors.{SetupPacket}
use cotton.UsbHost.Rp2040.Packetiser
use cotton.UsbHost.Rp2040.Packetiser.{
  ZeroLengthPacket, as_needed, never, InPacketiser, OutPacketiser,
}
use cotton.UsbHost.Rp2040.Depacketiser
use cotton.UsbHost.Rp2040.Depacketiser.{InDepacketiser, OutDepacketiser, total}
use cotton.UsbHost.Rp2040.Pac.{Pac, sie_ctrl, Field, set_bit}
use cotton.UsbHost.Rp2040.Polls.{Async, ◌>>=◌, ret, lift}
use cotton.UsbHost.Rp2040.Transfer.{Usb, Inner, dir_in, dir_out, send_setup, modify}
use cotton.UsbHost.Rp2040.Inner.{control_transfer_inner}
use cotton.UsbHost.Rp2040.Pipes.{with_pipe}

abbrev pub u16 : ℕ → ℕ
u16 n = n % 2 ^ 16

abbrev pub xor : Bool → Bool → Bool
xor true b = not b
xor false b = b

abbrev pub zero_length_packet : TransferType → ZeroLengthPacket
zero_length_packet fixed_size = never
zero_length_packet variable_size = as_needed

abbrev pub in_result :
    Result UsbError (Unit {0}) × Inner InPacketiser InDepacketiser → Result UsbError ℕ × Bytes
in_result (ok _, i) = (ok (total i.depacketiser), i.depacketiser.buf)
in_result (err e, i) = (err e, i.depacketiser.buf)

abbrev pub out_result :
    {P D : Type 0} → Bytes → Result UsbError (Unit {0}) × Inner P D → Result UsbError ℕ
out_result buf (ok _, i) = ok (length buf)
out_result buf (err e, i) = err e

abbrev pub in_transfer :
    Bool → Result UsbError (Unit {0}) × Inner InPacketiser InDepacketiser → Transfer
in_transfer toggle (ok _, i) = record {
  result = ok (total i.depacketiser);
  buffer = i.depacketiser.buf;
  data_toggle = xor toggle i.depacketiser.packet_parity;
}
in_transfer toggle (err e, i) = record {
  result = err e;
  buffer = i.depacketiser.buf;
  data_toggle = toggle;
}

abbrev pub out_transfer :
    Bytes → Bool → Result UsbError (Unit {0}) × Inner OutPacketiser OutDepacketiser → Transfer
out_transfer data' toggle (ok _, i) = record {
  result = ok (length data');
  buffer = data';
  data_toggle = xor toggle i.depacketiser.packet_parity;
}
out_transfer data' toggle (err e, i) = record {
  result = err e;
  buffer = data';
  data_toggle = toggle;
}

module _ {H W : Type 0} (pac : Pac H W) where
  unfoldable pub reset_root_port : Bool → Usb H W → Usb H W
  reset_root_port rst s = if rst then modify pac sie_ctrl (set_bit Field.reset_bus ∷ []) s else s

  module _ (task : W) where
    abbrev pub read_in : ℕ → ℕ → ℕ → Bytes → Async (Usb H W) (Result UsbError ℕ × Bytes)
    read_in address packet_size size buf = do
      packetiser ← lift (Packetiser.new_in (u16 size) packet_size true never)
      r ←
          control_transfer_inner pac Packetiser.In Depacketiser.In task address 0 packet_size dir_in
            size packetiser (Depacketiser.new_in (u16 size) buf)
      ret (in_result r)

    unfoldable pub control_transfer_in :
        ℕ → ℕ → ℕ → Bytes → Async (Usb H W) (Result UsbError ℕ × Bytes)
    control_transfer_in address packet_size size buf =
        if ltb (length buf) size
        then ret (err buffer_too_small, buf)
        else read_in address packet_size size buf

    abbrev pub write_out : ℕ → ℕ → ℕ → Bytes → Async (Usb H W) (Result UsbError ℕ)
    write_out address packet_size size buf = do
      packetiser ← lift (Packetiser.new_out (u16 size) packet_size buf true never)
      r ←
          control_transfer_inner pac Packetiser.Out Depacketiser.Out task address 0 packet_size
            dir_out size packetiser Depacketiser.new_out
      ret (out_result buf r)

    unfoldable pub control_transfer_out : ℕ → ℕ → ℕ → Bytes → Async (Usb H W) (Result UsbError ℕ)
    control_transfer_out address packet_size size buf =
        if ltb (length buf) size
        then ret (err buffer_too_small)
        else write_out address packet_size size buf

    -- The status stage after a data stage that gave `r`; its own length is dropped.
    abbrev pub acknowledge_in :
        ℕ → ℕ → Result UsbError ℕ × Bytes → Async (Usb H W) (Result UsbError ℕ × Bytes)
    acknowledge_in address packet_size (err e, buf) = ret (err e, buf)
    acknowledge_in address packet_size (ok size, buf) =
        control_transfer_out address packet_size 0 [] >>= λ r. ret (settled r)
      where
        settled : Result UsbError ℕ → Result UsbError ℕ × Bytes
        settled (ok _) = (ok size, buf)
        settled (err e) = (err e, buf)

    abbrev pub acknowledge_out :
        ℕ → ℕ → Bytes → Result UsbError ℕ → Async (Usb H W) (Result UsbError ℕ × Bytes)
    acknowledge_out address packet_size buf (err e) = ret (err e, buf)
    acknowledge_out address packet_size buf (ok size) =
        control_transfer_in address packet_size 0 [] >>= λ r. ret (settled r.0)
      where
        settled : Result UsbError ℕ → Result UsbError ℕ × Bytes
        settled (ok _) = (ok size, buf)
        settled (err e) = (err e, buf)

    abbrev pub data_stage :
        ℕ → ℕ → SetupPacket → DataPhase → Async (Usb H W) (Result UsbError ℕ × Bytes)
    data_stage address packet_size setup (data_in buf) =
        control_transfer_in address packet_size setup.w_length buf
        >>= acknowledge_in address packet_size
    data_stage address packet_size setup (data_out buf) =
        control_transfer_out address packet_size setup.w_length buf
        >>= acknowledge_out address packet_size buf
    data_stage address packet_size setup no_data = control_transfer_in address packet_size 0 []

    abbrev pub buffer_of : DataPhase → Bytes
    buffer_of (data_in buf) = buf
    buffer_of (data_out buf) = buf
    buffer_of no_data = []

    abbrev pub set_up :
        ℕ
        → ℕ
        → SetupPacket
        → DataPhase
        → Result UsbError (Unit {0})
        → Async (Usb H W) (Result UsbError ℕ × Bytes)
    set_up address packet_size setup phase (err e) = ret (err e, buffer_of phase)
    set_up address packet_size setup phase (ok _) = data_stage address packet_size setup phase

    unfoldable pub control_transfer :
        ℕ → ℕ → SetupPacket → DataPhase → Async (Usb H W) (Result UsbError ℕ × Bytes)
    control_transfer address packet_size setup phase =
        with_pipe task
          (send_setup pac task address setup >>= set_up address packet_size setup phase)

    abbrev pub read_bulk : ℕ → ℕ → ℕ → Bytes → TransferType → Bool → Async (Usb H W) Transfer
    read_bulk address endpoint packet_size data' transfer_type data_toggle = do
      packetiser ← lift (
          Packetiser.new_in (u16 (length data')) packet_size data_toggle
            (zero_length_packet transfer_type))
      r ←
          control_transfer_inner pac Packetiser.In Depacketiser.In task address endpoint
            (packet_size % 2 ^ 8) dir_in (u16 (length data')) packetiser
            (Depacketiser.new_in (u16 (length data')) data')
      ret (in_transfer data_toggle r)

    unfoldable pub bulk_in_transfer :
        ℕ → ℕ → ℕ → Bytes → TransferType → Bool → Async (Usb H W) Transfer
    bulk_in_transfer address endpoint packet_size data' transfer_type data_toggle =
        with_pipe task (read_bulk address endpoint packet_size data' transfer_type data_toggle)

    abbrev pub write_bulk : ℕ → ℕ → ℕ → Bytes → TransferType → Bool → Async (Usb H W) Transfer
    write_bulk address endpoint packet_size data' transfer_type data_toggle = do
      packetiser ← lift (
          Packetiser.new_out (u16 (length data')) packet_size data' data_toggle
            (zero_length_packet transfer_type))
      r ←
          control_transfer_inner pac Packetiser.Out Depacketiser.Out task address endpoint
            (packet_size % 2 ^ 8) dir_out (length data') packetiser Depacketiser.new_out
      ret (out_transfer data' data_toggle r)

    unfoldable pub bulk_out_transfer :
        ℕ → ℕ → ℕ → Bytes → TransferType → Bool → Async (Usb H W) Transfer
    bulk_out_transfer address endpoint packet_size data' transfer_type data_toggle =
        with_pipe task (write_bulk address endpoint packet_size data' transfer_type data_toggle)
