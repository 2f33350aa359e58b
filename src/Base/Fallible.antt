-- ===== src/Base/Fallible.antt =====
-- Fallible steps: `none` is a fault. `Ensures P m` says that `m` returns, with a result in `P`.
use mathlib.Core.Path.{◌≡◌, refl}
use mathlib.Core.Option.{Option, none, some}

infixl 5 ◌>>=◌
abbrev pub ◌>>=◌ {ℓ κ} : {A : Type ℓ} {B : Type κ} → Option A → (A → Option B) → Option B
none >>= f = none
some a >>= f = f a

abbrev pub Ensures {ℓ} : {A : Type ℓ} → (A → Type 0) → Option A → Type 0
Ensures P none = ⊥
Ensures P (some a) = P a

pub Ensures-bind {ℓ κ} :
    {A : Type ℓ} {B : Type κ} (P : A → Type 0) (Q : B → Type 0) (m : Option A) (f : A → Option B)
    → Ensures P m
    → ((a : A) → P a → Ensures Q (f a))
    → Ensures Q (m >>= f)
Ensures-bind P Q (some a) f p next = next a p
Ensures-bind P Q none f p next = absurd p

pub Ensures-some {ℓ} :
    {A : Type ℓ} (P : A → Type 0) (m : Option A) → Ensures P m → (a : A) × (m ≡ some a) × P a
Ensures-some P (some a) p = (a, refl, p)
Ensures-some P none p = absurd p

-- `Always P m` says no more than that a result, if there is one, is in `P`.
abbrev pub Always {ℓ} : {A : Type ℓ} → (A → Type 0) → Option A → Type 0
Always P none = Unit {0}
Always P (some a) = P a

pub Always-bind {ℓ κ} :
    {A : Type ℓ} {B : Type κ} (P : A → Type 0) (Q : B → Type 0) (m : Option A) (f : A → Option B)
    → Always P m
    → ((a : A) → P a → Always Q (f a))
    → Always Q (m >>= f)
Always-bind P Q (some a) f p next = next a p
Always-bind P Q none f p next = tt

pub Always-some {ℓ} :
    {A : Type ℓ} (P : A → Type 0) (m : Option A) {a : A} → m ≡ some a → Always P m → P a
Always-some P m e p = rw e at p
