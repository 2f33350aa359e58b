-- ===== src/Network/ByteOrder.antt =====
-- The byte swaps of tcp.cpp, udp.cpp, EtherFrame.cpp and InternetProtocolV4.cpp. A mask followed by
-- a shift to the right is written as quotient and remainder, and one to the left as a product.
use sector_os.Base.{suc, get_or, ℕ, ◌+◌, ◌*◌, ◌/◌, ◌%◌, ◌≡◌, ◌<◌, arith, bit_or, List, [], ◌∷◌, ◌∙◌}
use sector_os.Base.Bits.{bit_or_disjoint, bit_or_comm}

-- `((x & 0xFF00) >> 8) | ((x & 0x00FF) << 8)`
unfoldable pub swap16 : ℕ → ℕ
swap16 x = bit_or (x / 256 % 256) (x % 256 * 256)

-- `bigEndian32`
unfoldable pub big_endian32 : ℕ → ℕ
big_endian32 x =
    bit_or (bit_or (bit_or (x / 16777216 % 256) (x / 65536 % 256 * 256)) (x / 256 % 256 * 65536))
      (x % 256 * 16777216)

-- A field of a packed struct in memory, lowest byte first.
abbrev pub le16 : ℕ → List ℕ
le16 x = x % 256 ∷ (x / 256 % 256) ∷ []

abbrev pub le32 : ℕ → List ℕ
le32 x = x % 256 ∷ (x / 256 % 256) ∷ (x / 65536 % 256) ∷ (x / 16777216 % 256) ∷ []

-- A field of 48 bits, and the three fields read back at an offset of a buffer.
abbrev pub le48 : ℕ → List ℕ
le48 x =
    x % 256
    ∷ (x / 256 % 256)
    ∷ (x / 65536 % 256)
    ∷ (x / 16777216 % 256)
    ∷ (x / 4294967296 % 256)
    ∷ (x / 1099511627776 % 256)
    ∷ []

abbrev pub get16 : List ℕ → ℕ → ℕ
get16 p i = get_or p i 0 + 256 * get_or p (suc i) 0

abbrev pub get32 : List ℕ → ℕ → ℕ
get32 p i = get16 p i + 65536 * get16 p (suc (suc i))

abbrev pub get48 : List ℕ → ℕ → ℕ
get48 p i = get32 p i + 4294967296 * get16 p (suc (suc (suc (suc i))))

pub swap16_sum : (x : ℕ) → swap16 x ≡ x % 256 * 256 + x / 256 % 256
unfolding swap16
swap16_sum x =
    bit_or_comm (x / 256 % 256) (x % 256 * 256)
    ∙ bit_or_disjoint 8 (x % 256) (x / 256 % 256) (omega arith)

big_endian32_sum :
    (x : ℕ)
    → big_endian32 x
      ≡ x % 256 * 16777216 + (x / 256 % 256 * 65536 + (x / 65536 % 256 * 256 + x / 16777216 % 256))
unfolding big_endian32
big_endian32_sum x =
    rw
      (
        bit_or_comm (x / 16777216 % 256) (x / 65536 % 256 * 256),
        bit_or_disjoint 8 (x / 65536 % 256) (x / 16777216 % 256) (omega arith),
        bit_or_comm _ (x / 256 % 256 * 65536),
        bit_or_disjoint 16 (x / 256 % 256) (x / 65536 % 256 * 256 + x / 16777216 % 256)
            (omega arith),
        bit_or_comm _ (x % 256 * 16777216),
      )
      (bit_or_disjoint 24 (x % 256) _ (omega arith))

-- The swap of a 16-bit number undoes itself.
swap16-swap16 : (x : ℕ) → x < 65536 → swap16 (swap16 x) ≡ x
swap16-swap16 x h = omega (arith, swap16_sum x, swap16_sum (swap16 x))

-- The swap of a 32-bit number undoes itself.
big_endian32-big_endian32 : (x : ℕ) → x < 4294967296 → big_endian32 (big_endian32 x) ≡ x
big_endian32-big_endian32 x h = omega (arith, big_endian32_sum x, big_endian32_sum (big_endian32 x))
