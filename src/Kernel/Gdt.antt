-- ===== src/Kernel/Gdt.antt =====
-- kernel/gdt.cpp: a segment descriptor as its eight bytes. A mask and a shift are written as a
-- remainder and a quotient; the bits that are put together stand in disjoint places.
use sector_os.Base.{
  ℕ, ◌+◌, ◌-◌, ◌*◌, ◌/◌, ◌%◌, ◌≡◌, ◌≤◌, ◌<◌, refl, Bool, true, ◌&&◌, List, [], ◌∷◌, get_or, leb,
  ◌==◌, if◌then◌else◌, u32, arith, bit_or, bit_and, Bool-cases, inl, inr, holds_below,
  holds_below_at,
}
use sector_os.Base.Bits.{bit_or_disjoint}

-- The limit as it is stored: in bytes up to 65536, in pages of 4 KiB above.
unfoldable pub stored_limit : ℕ → ℕ
stored_limit limit =
    if leb limit 65536
    then limit
    else if limit % 4096 == 4095
    then limit / 4096
    else limit / 4096 - 1

unfoldable pub granularity : ℕ → ℕ
granularity limit = if leb limit 65536 then 0x40 else 0xC0

-- The constructor.
unfoldable pub segment_descriptor : ℕ → ℕ → ℕ → List ℕ
unfolding granularity
segment_descriptor base limit type =
    let n = stored_limit limit in
    n % 256
    ∷ (n / 256 % 256)
    ∷ (base % 256)
    ∷ (base / 256 % 256)
    ∷ (base / 65536 % 256)
    ∷ type
    ∷ bit_or (granularity limit) (n / 65536 % 16)
    ∷ (base / 16777216 % 256)
    ∷ []

unfoldable pub segment_base : List ℕ → ℕ
segment_base target = u32 (
    u32 (u32 (get_or target 7 0 * 256 + get_or target 4 0) * 256 + get_or target 3 0) * 256
    + get_or target 2 0)

unfoldable pub segment_limit : List ℕ → ℕ
segment_limit target =
    let result =
      u32 (
        u32 (bit_and (get_or target 6 0) 0xF * 256 + get_or target 1 0) * 256
        + get_or target 0 0) in
    if bit_and (get_or target 6 0) 0xC0 == 0xC0 then bit_or (u32 (result * 4096)) 0xFFF else result

-- The constructor of the table: null, unused, code and data segment, and the selectors of the two.
unfoldable pub global_descriptor_table : List (List ℕ)
global_descriptor_table =
    segment_descriptor 0 0 0
    ∷ segment_descriptor 0 0 0
    ∷ segment_descriptor 0 67108864 0x9A
    ∷ segment_descriptor 0 67108864 0x92
    ∷ []

unfoldable pub data_segment_selector : ℕ
data_segment_selector = 24

unfoldable pub code_segment_selector : ℕ
code_segment_selector = 16

-- The base that a descriptor is made with, of 32 bits, is the base that it gives back.
base-descriptor :
    (base limit type : ℕ)
    → base < 4294967296
    → segment_base (segment_descriptor base limit type) ≡ base
unfolding segment_base segment_descriptor
base-descriptor base limit type h = omega arith

-- The limit that a descriptor covers: the limit itself up to 65536, and above it whole pages, so that
-- a limit that does not end a page loses the rest of its last page.
abbrev pub covered : ℕ → ℕ
covered limit =
    if leb limit 65536
    then limit
    else if limit % 4096 == 4095
    then limit
    else limit / 4096 * 4096 - 1

-- The byte that holds the granularity and the high bits of a limit.
flags_fit : ℕ → Bool
flags_fit x =
    (bit_and (bit_or 0xC0 x) 0xF == x)
    && (bit_and (bit_or 0xC0 x) 0xC0 == 0xC0)
    && (bit_and (bit_or 0x40 x) 0xF == x)
    && (bit_and (bit_or 0x40 x) 0xC0 == 0x40)

flags_table : holds_below flags_fit 16 ≡ true
unfolding flags_fit holds_below
flags_table = refl

flags-split :
    (x : ℕ)
    → x < 16
    → (bit_and (bit_or 0xC0 x) 0xF ≡ x)
      × (bit_and (bit_or 0xC0 x) 0xC0 ≡ 0xC0)
      × (bit_and (bit_or 0x40 x) 0xF ≡ x)
      × (bit_and (bit_or 0x40 x) 0xC0 ≡ 0x40)
unfolding flags_fit
flags-split x h =
    let fits : flags_fit x ≡ true = holds_below_at flags_fit 16 flags_table x h in ground arith

-- A stored limit of 20 bits read back, and with the pages counted.
reassembled :
    (n : ℕ) → n < 1048576 → u32 (u32 (n / 65536 % 16 * 256 + n / 256 % 256) * 256 + n % 256) ≡ n
reassembled n h = omega arith

in_bytes : (n : ℕ) → n < 1048576 → bit_or (u32 (n * 4096)) 4095 ≡ n * 4096 + 4095
in_bytes n h =
    let whole : u32 (n * 4096) ≡ n * 4096 = omega arith in
    rw whole (bit_or_disjoint 12 n 4095 (omega arith))

limit_of :
    (base limit type n : ℕ)
    → stored_limit limit ≡ n
    → n < 1048576
    → segment_limit (segment_descriptor base limit type)
      ≡ (if leb limit 65536 then n else n * 4096 + 4095)
unfolding segment_limit segment_descriptor granularity
limit_of base limit type n e h =
    let flags = flags-split (n / 65536 % 16) (omega arith) in
    elim (Bool-cases (leb limit 65536)) [
      | inl small ↦ rw (small, e, flags.2, flags.3, reassembled n h) refl
      | inr large ↦ rw (large, e, flags.0, flags.1, reassembled n h, in_bytes n h) refl
    ]

-- A descriptor of a 32-bit limit gives back the limit that it covers, which is never more than the
-- limit that it was made with, and less than 4096 below it.
pub limit-descriptor :
    (base limit type : ℕ)
    → limit < 4294967296
    → (segment_limit (segment_descriptor base limit type) ≡ covered limit)
      × (covered limit ≤ limit)
      × (limit < covered limit + 4096)
unfolding stored_limit
limit-descriptor base limit type h =
    let bound : stored_limit limit < 1048576 = ground arith in
    (
      ground (arith, limit_of base limit type (stored_limit limit) refl bound),
      ground arith,
      ground arith,
    )
