-- ===== src/Network/Checksum.antt =====
-- `InternetProtocolProvider::Checksum` over the bytes behind the pointer. The pointer is to 16-bit
-- words, the low byte first; `char` is signed on the target, so the lone last byte of an odd length
-- is extended by its sign.
pub mod Verify
use sector_os.Base.{
  ℕ, zero, suc, ◌+◌, ◌-◌, ◌*◌, ◌/◌, ◌%◌, ◌≡◌, ◌≤◌, ◌<◌, refl, arith, List, [], ◌∷◌, ◌++◌, ltb, ◌==◌,
  if◌then◌else◌, u16, u32, Option, none, some,
}
use sector_os.Network.ByteOrder.{swap16, swap16_sum}

sign_extend : ℕ → ℕ
sign_extend b = if ltb b 128 then b else b + 65280

-- The two additions to `temp`: the loop over the words and the odd byte.
unfoldable pub add_words : ℕ → List ℕ → ℕ
unfolding sign_extend
add_words temp [] = temp
add_words temp (b ∷ []) = u32 (temp + sign_extend b * 256)
add_words temp (b ∷ (c ∷ rest)) = add_words (u32 (temp + swap16 (b + 256 * c))) rest

-- `while (temp & 0xFFFF0000) temp = (temp & 0xFFFF) + (temp >> 16);`, on fuel.
unfoldable pub fold : ℕ → ℕ → Option ℕ
fold zero temp = none
fold (suc fuel) temp =
    let rest = fold fuel (temp % 65536 + temp / 65536) in
    if temp / 65536 == 0 then some temp else rest

-- `((~temp & 0xFF00) >> 8) | ((~temp & 0x00FF) << 8)`, where `~temp` is the 32-bit complement.
unfoldable pub complement_swapped : ℕ → ℕ
complement_swapped temp = swap16 (u16 (4294967295 - temp))

-- Three rounds are enough for any 32-bit sum.
abbrev pub fold_fuel : ℕ
fold_fuel = 4

unfoldable pub checksum : List ℕ → Option ℕ
checksum bytes = elim (fold fold_fuel (add_words 0 bytes)) [
  | none ↦ none
  | some temp ↦ some (complement_swapped temp)
]
