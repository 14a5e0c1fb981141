-- ===== src/Scsi/Device/Peripheral.antt =====
-- cotton-scsi/src/scsi_device.rs: the peripheral types, an enum of all 32 codes of five bits.
use cotton.Prelude.{
  ℕ, ◌+◌, ◌≡◌, refl, ◌∙◌, ◌<◌, length, Bool, true, List, [], ◌∷◌, get_or, ◌==◌, ◌&&◌, zero, suc,
  arith,
}

pub data PeripheralType : Type 0 where
  disk sequential printer processor : PeripheralType
  write_once optical scanner optical_memory : PeripheralType
  changer communications obsolete10 obsolete11 : PeripheralType
  storage_array enclosure_services simplified_direct optical_card_reader : PeripheralType
  bridge_controller object_storage automation reserved13 : PeripheralType
  reserved14 reserved15 reserved16 reserved17 : PeripheralType
  reserved18 reserved19 reserved1a reserved1b : PeripheralType
  reserved1c reserved1d well_known_unit other : PeripheralType

-- The codes that the enum gives its variants.
unfoldable pub code : PeripheralType → ℕ
code disk = 0x0
code sequential = 0x1
code printer = 0x2
code processor = 0x3
code write_once = 0x4
code optical = 0x5
code scanner = 0x6
code optical_memory = 0x7
code changer = 0x8
code communications = 0x9
code obsolete10 = 0xa
code obsolete11 = 0xb
code storage_array = 0xc
code enclosure_services = 0xd
code simplified_direct = 0xe
code optical_card_reader = 0xf
code bridge_controller = 0x10
code object_storage = 0x11
code automation = 0x12
code reserved13 = 0x13
code reserved14 = 0x14
code reserved15 = 0x15
code reserved16 = 0x16
code reserved17 = 0x17
code reserved18 = 0x18
code reserved19 = 0x19
code reserved1a = 0x1a
code reserved1b = 0x1b
code reserved1c = 0x1c
code reserved1d = 0x1d
code well_known_unit = 0x1e
code other = 0x1f

abbrev variants : List PeripheralType
variants =
    disk ∷ sequential ∷ printer ∷ processor ∷ write_once ∷ optical ∷ scanner ∷ optical_memory
    ∷ changer ∷ communications ∷ obsolete10 ∷ obsolete11 ∷ storage_array ∷ enclosure_services
    ∷ simplified_direct ∷ optical_card_reader ∷ bridge_controller ∷ object_storage ∷ automation
    ∷ reserved13 ∷ reserved14 ∷ reserved15 ∷ reserved16 ∷ reserved17 ∷ reserved18 ∷ reserved19
    ∷ reserved1a ∷ reserved1b ∷ reserved1c ∷ reserved1d ∷ well_known_unit ∷ other ∷ []

-- `transmute::<u8, PeripheralType>`: the variant with that code.
unfoldable pub transmute : ℕ → PeripheralType
transmute x = get_or variants x other

-- The variants of a list carry the codes from `first` up.
are_numbered : ℕ → List PeripheralType → Bool
are_numbered first [] = true
are_numbered first (p ∷ ps) = code p == first && are_numbered (suc first) ps

code-get_or :
    (first k : ℕ) (ps : List PeripheralType)
    → are_numbered first ps ≡ true
    → k < length ps
    → code (get_or ps k other) ≡ first + k
unfolding are_numbered
code-get_or first k [] numbered h = absurd (omega arith)
code-get_or first zero (p ∷ ps) numbered h = ground arith
code-get_or first (suc k) (p ∷ ps) numbered h = ground (arith, code-get_or (suc first) k ps)

variants_lem : are_numbered 0 variants ≡ true
unfolding are_numbered code
variants_lem = refl

-- Every code of five bits is that of the variant which the transmute yields.
pub code-transmute : (x : ℕ) → x < 32 → code (transmute x) ≡ x
unfolding transmute
code-transmute x h = code-get_or 0 x variants variants_lem h ∙ omega arith

pub transmute-code : (p : PeripheralType) → transmute (code p) ≡ p
unfolding code transmute
transmute-code disk = refl
transmute-code sequential = refl
transmute-code printer = refl
transmute-code processor = refl
transmute-code write_once = refl
transmute-code optical = refl
transmute-code scanner = refl
transmute-code optical_memory = refl
transmute-code changer = refl
transmute-code communications = refl
transmute-code obsolete10 = refl
transmute-code obsolete11 = refl
transmute-code storage_array = refl
transmute-code enclosure_services = refl
transmute-code simplified_direct = refl
transmute-code optical_card_reader = refl
transmute-code bridge_controller = refl
transmute-code object_storage = refl
transmute-code automation = refl
transmute-code reserved13 = refl
transmute-code reserved14 = refl
transmute-code reserved15 = refl
transmute-code reserved16 = refl
transmute-code reserved17 = refl
transmute-code reserved18 = refl
transmute-code reserved19 = refl
transmute-code reserved1a = refl
transmute-code reserved1b = refl
transmute-code reserved1c = refl
transmute-code reserved1d = refl
transmute-code well_known_unit = refl
transmute-code other = refl
