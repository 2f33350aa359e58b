-- ===== src/Base/Words.antt =====
-- Machine words as native numbers: a cast wraps by `%`, a decrement adds the modulus first.
-- A memory is a function from an address to the byte there.
use Prim.Native.Nat.{ℕ, ◌+◌, ◌-◌, ◌*◌, ◌%◌, ◌≤◌, ◌<◌}
use mathlib.Core.Path.{◌≡◌}
use mathlib.Core.Logic.{◌≢◌}
use mathlib.Core.Bool.{Bool, true, false}
use native.Mathlib.Omega.{arith}
use sector_os.Base.Tests.{◌==◌, if◌then◌else◌}

abbrev pub u8 : ℕ → ℕ
u8 n = n % 256

abbrev pub sub8 : ℕ → ℕ → ℕ
sub8 a b = (a + 256 - b) % 256

abbrev pub u16 : ℕ → ℕ
u16 n = n % 65536

abbrev pub u32 : ℕ → ℕ
u32 n = n % 4294967296

abbrev pub sub32 : ℕ → ℕ → ℕ
sub32 a b = (a + 4294967296 - b) % 4294967296

-- A Boolean stored in a one-bit field.
abbrev pub bit : Bool → ℕ
bit true = 1
bit false = 0

abbrev pub update {ℓ} : {A : Type ℓ} → (ℕ → A) → ℕ → A → ℕ → A
update f p v q = if p == q then v else f q

pub update_self {ℓ} : {A : Type ℓ} (f : ℕ → A) (p : ℕ) (v : A) → update f p v p ≡ v
update_self f p v = ground arith

pub update_ne {ℓ} : {A : Type ℓ} (f : ℕ → A) (p q : ℕ) (v : A) → p ≢ q → update f p v q ≡ f q
update_ne f p q v h = ground arith

-- The product of two bytes is a 16-bit number.
pub mul-byte_lt : (a b : ℕ) → a < 256 → b < 256 → a * b < 65536
mul-byte_lt a b p q = grind (arith, le_product a b p q)
  where
    le_product : (a b : ℕ) → a < 256 → b < 256 → a * b ≤ 255 * b
    le_product a b p q = grind arith
