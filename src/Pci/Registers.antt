-- ===== src/Pci/Registers.antt =====
-- The numbers by which registers of the configuration space are addressed.
use sector_os.Base.{
  ℕ, ◌+◌, ◌*◌, ◌^◌, ◌/◌, ◌%◌, ◌≡◌, ◌<◌, refl, true, ◌==◌, arith, bit_and, bit_or, holds_below,
  holds_below_at,
}
use sector_os.Base.Bits.{bit_or_disjoint}
use sector_os.Pci.{pci_id}

offset_table : holds_below (λ r. bit_and r 0xFC == r / 4 * 4) 256 ≡ true
unfolding holds_below
offset_table = refl

dword : (r : ℕ) → r < 256 → bit_and r 0xFC ≡ r / 4 * 4
dword r lt =
    let e = holds_below_at (λ n. bit_and n 0xFC == n / 4 * 4) 256 offset_table r lt in ground arith

beside : (k q whole r : ℕ) → whole ≡ q * 2 ^ k → r < 2 ^ k → bit_or whole r ≡ whole + r
beside k q whole r e fits = rw e (bit_or_disjoint k q r fits)

-- The parts of the number lie beside one another.
pub pci_id_sum :
    (bus device function offset : ℕ)
    → bus < 256
    → device < 32
    → function < 8
    → offset < 256
    → pci_id bus device function offset
      ≡ 0x80000000 + bus * 65536 + device * 2048 + function * 256 + offset / 4 * 4
unfolding pci_id
pci_id_sum bus device function offset b d f o =
    let b0 = beside 31 1 0x80000000 (bus % 256 * 65536) refl (omega arith) in
    let b1 = 0x80000000 + bus % 256 * 65536 in
    let d0 = beside 16 (32768 + bus % 256) b1 (device % 32 * 2048) (omega arith) (omega arith) in
    let b2 = b1 + device % 32 * 2048 in
    let f0 =
      beside 11 (1048576 + bus % 256 * 32 + device % 32) b2 (function % 8 * 256) (omega arith)
        (omega arith) in
    let b3 = b2 + function % 8 * 256 in
    let o0 =
      beside 8 (8388608 + bus % 256 * 256 + device % 32 * 8 + function % 8) b3 (offset / 4 * 4)
        (omega arith) (omega arith) in
    rw (dword offset o, b0, d0, f0, o0) (omega arith)

-- With 8 bits for the bus, 5 for the device, 3 for the function and 8 for the offset, two registers have the
-- same number only if they are of the same function of the same device of the same bus, and in the
-- same four bytes.
pub pci_id-injective :
    (bus device function offset bus' device' function' offset' : ℕ)
    → (bus < 256) × (device < 32) × (function < 8) × (offset < 256)
    → (bus' < 256) × (device' < 32) × (function' < 8) × (offset' < 256)
    → pci_id bus device function offset ≡ pci_id bus' device' function' offset'
    → (bus ≡ bus') × (device ≡ device') × (function ≡ function') × (offset / 4 ≡ offset' / 4)
pci_id-injective bus device function offset bus' device' function' offset' v v' same =
    let (b, d, f, o) = v in
    let (b', d', f', o') = v' in
    let p = pci_id_sum bus device function offset b d f o in
    let q = pci_id_sum bus' device' function' offset' b' d' f' o' in
    (omega arith, omega arith, omega arith, omega arith)
