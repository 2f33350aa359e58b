-- ===== src/Base/Bits.antt =====
-- `(q << k) | r` is a sum where `r` fits into `k` bits, at every width, and `|` commutes.
use Prim.Native.Nat.{
  ℕ, zero, suc, ◌+◌, ◌*◌, ◌/◌, ◌%◌, ◌^◌, ◌≤◌, ◌<◌, max, bit_or, digits, bit_or-bitwise,
}
use mathlib.Core.Path.{◌≡◌, refl, ap, ◌∙◌}
use native.Mathlib.Nat.{pow-suc}
use native.Mathlib.Decide.{ℕ_discrete}
use native.Mathlib.Omega.{arith}

-- What the native operation means, with the number of its rounds in front.
abbrev or_rounds : ℕ → ℕ → ℕ → ℕ
or_rounds = digits (λ y. y) max

or_rounds_more : (rounds b a : ℕ) → a ≤ rounds → or_rounds (suc rounds) a b ≡ or_rounds rounds a b
or_rounds_more (suc rounds) b (suc a) h =
    let halves = or_rounds_more rounds (b / 2) (suc a / 2) (omega arith) in omega (arith, halves)
or_rounds_more zero b (suc a) h = elim h [ ]
or_rounds_more zero b zero h = refl
or_rounds_more (suc rounds) b zero h = refl

or_rounds_enough : (rounds b a : ℕ) → a ≤ rounds → or_rounds rounds a b ≡ or_rounds a a b
or_rounds_enough (suc rounds) b a h = elim (ℕ_discrete a (suc rounds)) [
  | yes e ↦ rw e refl
  | no ne ↦
      let fewer : a ≤ rounds = omega arith in
      or_rounds_more rounds b a fewer ∙ or_rounds_enough rounds b a fewer
]
or_rounds_enough zero b (suc a) h = elim h [ ]
or_rounds_enough zero b zero h = refl

-- The lowest bits, and the others.
bit_or_halves : (b a : ℕ) → bit_or a b ≡ max (a % 2) (b % 2) + 2 * bit_or (a / 2) (b / 2)
bit_or_halves b (suc a) =
    let enough = or_rounds_enough a (b / 2) (suc a / 2) (omega arith) in
    simp bit_or-bitwise (omega (arith, enough))
bit_or_halves b zero = simp bit_or-bitwise (omega arith)

bit_or-zero_below : (n a : ℕ) → a < n → bit_or a 0 ≡ a
bit_or-zero_below (suc n) (suc a) h =
    let upper = bit_or-zero_below n (suc a / 2) (omega arith) in
    omega (arith, bit_or_halves 0 (suc a), upper)
bit_or-zero_below (suc n) zero h = refl
bit_or-zero_below zero a h = elim h [ ]

bit_or-zero : (a : ℕ) → bit_or a 0 ≡ a
bit_or-zero a = bit_or-zero_below (suc a) a (omega arith)

double_shift : (k q : ℕ) → q * 2 ^ suc k ≡ q * 2 ^ k + q * 2 ^ k
double_shift k q = omega (arith, ap (λ (t : ℕ). q * t) (pow-suc 2 k))

pub bit_or_disjoint : (k q r : ℕ) → r < 2 ^ k → bit_or (q * 2 ^ k) r ≡ q * 2 ^ k + r
bit_or_disjoint (suc k) q r fits =
    let twice = double_shift k q in
    let room : r / 2 < 2 ^ k = omega (arith, pow-suc 2 k) in
    let half : q * 2 ^ suc k / 2 ≡ q * 2 ^ k = omega (arith, twice) in
    let upper : bit_or (q * 2 ^ suc k / 2) (r / 2) ≡ q * 2 ^ k + r / 2 =
      rw half (bit_or_disjoint k q (r / 2) room) in
    ground (arith, bit_or_halves r (q * 2 ^ suc k), upper, twice)
bit_or_disjoint zero q r fits = ground (arith, bit_or-zero q)

bit_or_comm_below : (n b a : ℕ) → a < n → b < n → bit_or a b ≡ bit_or b a
bit_or_comm_below (suc zero) b a h k = let e : a ≡ b = omega arith in rw e refl
bit_or_comm_below (suc (suc n)) b a h k =
    let upper = bit_or_comm_below (suc n) (b / 2) (a / 2) (omega arith) (omega arith) in
    omega (arith, bit_or_halves b a, bit_or_halves a b, upper)
bit_or_comm_below zero b a h k = elim h [ ]

pub bit_or_comm : (a b : ℕ) → bit_or a b ≡ bit_or b a
bit_or_comm a b = bit_or_comm_below (suc (a + b)) b a (omega arith) (omega arith)
