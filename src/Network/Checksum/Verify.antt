-- ===== src/Network/Checksum/Verify.antt =====
-- The loops of `Checksum` end, and a header that carries its checksum sums to zero.
use sector_os.Base.{
  ℕ, suc, ◌+◌, ◌-◌, ◌*◌, ◌/◌, ◌%◌, ◌≡◌, ◌≤◌, ◌<◌, refl, arith, List, [], ◌∷◌, ◌++◌, u32, some,
  length, length-append, ◌≢◌, dec_lt, ◌∙◌, ap,
}
use sector_os.Network.ByteOrder.{swap16, swap16_sum, le16}
use sector_os.Network.Checksum.{add_words, fold, complement_swapped, checksum, fold_fuel}

-- The folded sum is the same number modulo 65535, in 16 bits, and is 0 exactly for 0.
abbrev Folds : ℕ → ℕ → Type 0
Folds temp r = (r < 65536) × (temp % 65535 ≡ r % 65535) × (temp ≢ 0 → r ≢ 0) × (temp ≡ 0 → r ≡ 0)

fold_small : (fuel temp : ℕ) → temp < 65536 → fold (suc fuel) temp ≡ some temp
unfolding fold
fold_small fuel temp h = ground arith

fold_large :
    (fuel temp : ℕ) → 65536 ≤ temp → fold (suc fuel) temp ≡ fold fuel (temp % 65536 + temp / 65536)
unfolding fold
fold_large fuel temp h = ground arith

fold_two : (temp : ℕ) → temp < 131071 → (r : ℕ) × (fold 3 temp ≡ some r) × Folds temp r
fold_two temp h = elim (dec_lt temp 65536) [
  | yes small ↦ (temp, fold_small 2 temp small, (small, refl, λ e. e, λ e. e))
  | no large ↦
      let t = temp % 65536 + temp / 65536 in
      (
        t,
        fold_large 2 temp (omega arith) ∙ fold_small 1 t (omega arith),
        (omega arith, omega arith, λ e. omega arith, λ e. absurd (omega arith)),
      )
]

pub fold_total :
    (temp : ℕ) → temp < 4294967296 → (r : ℕ) × (fold fold_fuel temp ≡ some r) × Folds temp r
fold_total temp h = elim (dec_lt temp 65536) [
  | yes small ↦ (temp, fold_small 3 temp small, (small, refl, λ e. e, λ e. e))
  | no large ↦
      let t = temp % 65536 + temp / 65536 in
      let (r, e, f) = fold_two t (omega arith) in
      (
        r,
        fold_large 3 temp (omega arith) ∙ e,
        (f.0, omega arith, λ ne. f.2 (omega arith), λ e. absurd (omega arith)),
      )
]

-- Pairs of bytes, the high one first.
abbrev pub IsWords : List ℕ → Type 0
IsWords [] = Unit {0}
IsWords (b ∷ []) = ⊥
IsWords (b ∷ (c ∷ rest)) = (b < 256) × (c < 256) × IsWords rest

word_sum : List ℕ → ℕ
word_sum [] = 0
word_sum (b ∷ []) = 0
word_sum (b ∷ (c ∷ rest)) = b * 256 + c + word_sum rest

word_sum-le : (xs : List ℕ) → IsWords xs → word_sum xs ≤ 32768 * length xs
unfolding word_sum
word_sum-le [] h = omega arith
word_sum-le (b ∷ []) h = absurd h
word_sum-le (b ∷ (c ∷ rest)) h = omega (arith, word_sum-le rest h.2)

word_sum-append : (xs ys : List ℕ) → IsWords xs → word_sum (xs ++ ys) ≡ word_sum xs + word_sum ys
unfolding word_sum
word_sum-append [] ys h = omega arith
word_sum-append (b ∷ []) ys h = absurd h
word_sum-append (b ∷ (c ∷ rest)) ys h = omega (arith, word_sum-append rest ys h.2)

IsWords-append : (xs ys : List ℕ) → IsWords xs → IsWords ys → IsWords (xs ++ ys)
IsWords-append [] ys h k = k
IsWords-append (b ∷ []) ys h k = absurd h
IsWords-append (b ∷ (c ∷ rest)) ys h k = (h.0, h.1, IsWords-append rest ys h.2 k)

add_words-word_sum :
    (temp : ℕ) (xs : List ℕ)
    → IsWords xs
    → temp + word_sum xs < 4294967296
    → add_words temp xs ≡ temp + word_sum xs
unfolding word_sum add_words
add_words-word_sum temp [] h k = omega arith
add_words-word_sum temp (b ∷ []) h k = absurd h
add_words-word_sum temp (b ∷ (c ∷ rest)) h k =
    let value : swap16 (b + 256 * c) ≡ b * 256 + c = omega (arith, swap16_sum (b + 256 * c)) in
    let sum : u32 (temp + swap16 (b + 256 * c)) ≡ temp + (b * 256 + c) = omega arith in
    rw sum (omega (arith, add_words-word_sum (temp + (b * 256 + c)) rest h.2 (omega arith)))

checksum-fold :
    (xs : List ℕ) (r : ℕ)
    → fold fold_fuel (add_words 0 xs) ≡ some r
    → checksum xs ≡ some (complement_swapped r)
unfolding checksum
checksum-fold xs r e = rw (checksum, e)

-- On an even number of bytes, at most 65536 of them, the checksum is the swapped complement of a
-- 16-bit number that is the sum of the words modulo 65535.
checksum_lem :
    (xs : List ℕ)
    → IsWords xs
    → length xs ≤ 65536
    → (r : ℕ) × (checksum xs ≡ some (complement_swapped r)) × Folds (word_sum xs) r
checksum_lem xs h k =
    let small : word_sum xs < 4294967296 = omega (arith, word_sum-le xs h) in
    let sum : add_words 0 xs ≡ word_sum xs =
      omega (arith, add_words-word_sum 0 xs h (omega arith)) in
    let (r, e, f) = fold_total (word_sum xs) small in (r, checksum-fold xs r (rw sum e), f)

complement_word : (r : ℕ) → r < 65536 → complement_swapped r ≡ swap16 (65535 - r)
unfolding complement_swapped
complement_word r h = ap swap16 (omega arith)

complement_of_full : complement_swapped 65535 ≡ 0
unfolding complement_swapped swap16
complement_of_full = refl

-- The two bytes in which a swapped word is stored, read high byte first, are the word.
stored_word : (n : ℕ) → n < 65536 → swap16 n % 256 * 256 + swap16 n / 256 % 256 ≡ n
stored_word n h = omega (arith, swap16_sum n)

sum_with :
    (xs ys : List ℕ) (b c : ℕ)
    → IsWords xs
    → word_sum (xs ++ b ∷ (c ∷ ys)) ≡ word_sum xs + (b * 256 + c) + word_sum ys
unfolding word_sum
sum_with xs ys b c h = omega (arith, word_sum-append xs (b ∷ (c ∷ ys)) h)

length_with : (xs ys : List ℕ) (b c : ℕ) → length (xs ++ b ∷ (c ∷ ys)) ≡ length xs + length ys + 2
length_with xs ys b c = omega (arith, length-append xs (b ∷ (c ∷ ys)))

module _ (xs ys : List ℕ) (hx : IsWords xs) (hy : IsWords ys)
    (small : length xs + length ys + 2 ≤ 65536) where
  checksum_with :
      (b c : ℕ)
      → b < 256
      → c < 256
      → (r : ℕ) × (checksum (xs ++ b ∷ (c ∷ ys)) ≡ some (complement_swapped r))
        × Folds (word_sum (xs ++ b ∷ (c ∷ ys))) r
  checksum_with b c hb hc =
      checksum_lem (xs ++ b ∷ (c ∷ ys)) (IsWords-append xs (b ∷ (c ∷ ys)) hx (hb, hc, hy))
        (omega (arith, length_with xs ys b c))

  -- A total that is a positive multiple of 65535 folds to 65535.
  Folds-full : (total r : ℕ) → total % 65535 ≡ 0 → total ≢ 0 → Folds total r → r ≡ 65535
  Folds-full total r m pos f = let ne = f.2 pos in omega arith

  filled_total :
      (r n total : ℕ)
      → n + r ≡ 65535
      → Folds (word_sum xs + word_sum ys) r
      → total ≡ word_sum xs + n + word_sum ys
      → (total % 65535 ≡ 0) × (total ≢ 0)
  filled_total r n total e f t = (omega arith, λ z. let r_zero = f.3 (omega arith) in omega arith)

  filled :
      (r : ℕ)
      → Folds (word_sum xs + word_sum ys) r
      → checksum (xs ++ (le16 (swap16 (65535 - r)) ++ ys)) ≡ some 0
  filled r f =
      let c : ℕ = swap16 (65535 - r) in
      let (r', e, f') = checksum_with (c % 256) (c / 256 % 256) (omega arith) (omega arith) in
      let (m, pos) = filled_total r (65535 - r) _ (omega arith) f (
        sum_with xs ys (c % 256) (c / 256 % 256) hx
        ∙ ap (λ (t : ℕ). word_sum xs + t + word_sum ys) (stored_word (65535 - r) (omega arith))) in
      e ∙ ap some (ap complement_swapped (Folds-full _ r' m pos f') ∙ complement_of_full)

-- A packet whose checksum field was filled in while it was zero sums to a checksum of zero, which
-- is the test that a receiver makes. The packet has an even number of bytes, at most 65536, and the
-- field stands at an even offset.
pub checksum_verifies :
    (xs ys : List ℕ)
    → IsWords xs
    → IsWords ys
    → length xs + length ys + 2 ≤ 65536
    → (c : ℕ) × (checksum (xs ++ 0 ∷ (0 ∷ ys)) ≡ some c)
      × (checksum (xs ++ (le16 c ++ ys)) ≡ some 0)
checksum_verifies xs ys hx hy small =
    let (r, e, f) = checksum_with xs ys hx hy small 0 0 (omega arith) (omega arith) in
    let zero_sum : word_sum (xs ++ 0 ∷ (0 ∷ ys)) ≡ word_sum xs + word_sum ys =
      omega (arith, sum_with xs ys 0 0 hx) in
    (
      swap16 (65535 - r),
      e ∙ ap some (complement_word r f.0),
      filled xs ys hx hy small r (rw zero_sum at f),
    )
