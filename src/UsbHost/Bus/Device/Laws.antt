-- ===== src/UsbHost/Bus/Device/Laws.antt =====
-- cotton-usb-host/src/usb_bus.rs: an endpoint of a device is opened once.
use cotton.Prelude.{
  ℕ, ◌-◌, ◌^◌, ◌<◌, ◌≡◌, refl, inl, inr, true, false, ◌==◌, if◌then◌else◌, Bool-cases, arith,
}
use cotton.Prelude.Bits.{
  bit, bit-lt-two, bit-bit_and, bit-two_pow, bit-complement, bit_and-two_pow_clear,
  bit_and-two_pow_set, two_pow_mono,
}
use cotton.Prelude.Result.{Result, ok, err}
use cotton.UsbHost.HostController.{UsbError}
use cotton.UsbHost.Bus.Device.{UsbDevice, BulkIn, is_endpoint, without, open_in_endpoint}

-- The endpoint is there and has not been opened.
abbrev pub IsOpenable : ℕ → ℕ → Type 0
IsOpenable bitmap ep = (0 < ep) × (ep < 16) × (bit ep bitmap ≡ 1)

is_endpoint_lem :
    (bitmap ep : ℕ) → bitmap < 2 ^ 16 → IsOpenable bitmap ep → is_endpoint bitmap ep ≡ true
is_endpoint_lem bitmap ep h (a, b, e) = ground (arith, bit_and-two_pow_set ep bitmap e)

is_endpoint-IsOpenable :
    (bitmap ep : ℕ) → bitmap < 2 ^ 16 → is_endpoint bitmap ep ≡ true → IsOpenable bitmap ep
is_endpoint-IsOpenable bitmap ep h e = elim (Bool-cases (bit ep bitmap == 1)) [
  | inl q ↦ ground arith
  | inr q ↦
      ground (arith, bit_and-two_pow_clear 16 ep bitmap h (ground (arith, bit-lt-two ep bitmap)))
]

bit-without :
    (bitmap ep n : ℕ)
    → ep < 16
    → n < 16
    → bit n (without bitmap ep) ≡ (if n == ep then 0 else bit n bitmap)
bit-without bitmap ep n h l = ground (
  arith,
  bit-bit_and n bitmap (2 ^ 16 - 1 - 2 ^ ep),
  bit-complement 16 n (2 ^ ep) l (two_pow_mono ep 16 h),
  bit-two_pow n ep,
  bit-lt-two n bitmap,
)

-- The two ways in which opening ends: the endpoint and nothing else is taken out of the device, or
-- the endpoint cannot be opened and the device stays as it was.
pub data OpensIn (d : UsbDevice) (ep : ℕ) : Result UsbError BulkIn × UsbDevice → Type 0 where
  opened :
      (d' : UsbDevice)
      → IsOpenable d.in_endpoints_bitmap ep
      → ((n : ℕ)
          → n < 16
          → bit n d'.in_endpoints_bitmap ≡ (if n == ep then 0 else bit n d.in_endpoints_bitmap))
      → d'.out_endpoints_bitmap ≡ d.out_endpoints_bitmap
      → d'.usb_address ≡ d.usb_address
      → OpensIn d ep (
        ok (record {
          usb_address = d.usb_address;
          usb_speed = d.usb_speed;
          endpoint = ep;
          data_toggle = false;
        }),
        d',
      )
  refused : ¬ IsOpenable d.in_endpoints_bitmap ep → OpensIn d ep (err UsbError.no_such_endpoint, d)

-- On a device whose bitmap fits 16 bits an IN endpoint opens exactly if it is between 1 and 15, the
-- device has it and it has not been opened yet; then that one endpoint is closed to any further
-- opening. Otherwise the error is NoSuchEndpoint and the device is left alone.
pub open_in_endpoint-OpensIn :
    (d : UsbDevice) (ep : ℕ) → d.in_endpoints_bitmap < 2 ^ 16 → OpensIn d ep (open_in_endpoint d ep)
unfolding open_in_endpoint
open_in_endpoint-OpensIn d ep h = elim (Bool-cases (is_endpoint d.in_endpoints_bitmap ep)) [
  | inl q ↦
      let o = is_endpoint-IsOpenable d.in_endpoints_bitmap ep h q in
      rw q (
        opened (record d { in_endpoints_bitmap = without d.in_endpoints_bitmap ep }) o
          (λ n l. bit-without d.in_endpoints_bitmap ep n o.1 l) refl refl)
  | inr q ↦ rw q (refused (λ o. let p = is_endpoint_lem d.in_endpoints_bitmap ep h o in absurd cc))
]
