-- ===== src/Kernel/IntText/Decimal.antt =====
-- The texts against the decimal notation.
use Prim.Native.String.{String}
use sector_os.Base.{
  ℕ, ◌+◌, ◌-◌, ◌*◌, ◌≡◌, ◌≤◌, refl, ◌≢◌, ◌⊎◌, inl, inr, ◌↔◌, Bool, true, false, not, ◌&&◌, ◌||◌,
  Option, none, some, List, [], ◌∷◌, ◌==◌, leb, if◌then◌else◌, arith, Bool-cases, holds_below,
  holds_below_at, codes,
}
use sector_os.Kernel.IntText.Table.{Cases}
use sector_os.Kernel.IntText.{int_to_char_point, find_case, all_cases}

-- A number read from its decimal digits, with those in front of it; none if a character is no digit.
abbrev read_digits : ℕ → List ℕ → Option ℕ
read_digits n [] = some n
read_digits n (c ∷ cs) =
    let rest = read_digits (n * 10 + (c - 48)) cs in if leb 48 c && leb c 57 then rest else none

abbrev pub read_decimal : String → Option ℕ
read_decimal text = read_digits 0 (codes text)

is_number : Option ℕ → ℕ → Bool
is_number none n = false
is_number (some m) n = m == n

is_number_sound : (o : Option ℕ) (n : ℕ) → is_number o n ≡ true → o ≡ some n
unfolding is_number
is_number_sound none n h = ground arith
is_number_sound (some m) n h = ground arith

is_number-false : (o : Option ℕ) (n : ℕ) → is_number o n ≡ false → o ≢ some n
unfolding is_number
is_number-false none n h = λ e. cc
is_number-false (some m) n h = ground arith

all_sound : Cases → Bool
all_sound [] = true
all_sound ((n, text) ∷ rest) = (n == 27 || is_number (read_decimal text) n) && all_sound rest

find_case_sound :
    (n : ℕ) (cs : Cases)
    → all_sound cs ≡ true
    → n ≢ 27
    → (find_case n cs ≡ "NaN") ⊎ (read_decimal (find_case n cs) ≡ some n)
unfolding find_case all_sound
find_case_sound n [] h ne = inl refl
find_case_sound n ((m, text) ∷ rest) h ne =
    let later : all_sound rest ≡ true = ground arith in
    elim (Bool-cases (n == m)) [
      | inl e ↦
          let same : m ≡ n = ground arith in
          let fits : is_number (read_decimal text) m ≡ true = ground arith in
          rw e (inr (is_number_sound (read_decimal text) n (rw same at fits)))
      | inr e ↦ rw e (find_case_sound n rest later ne)
    ]

-- Every text but the one for 27 reads back as its number, unless it is the default.
int_to_char_point-read_decimal :
    (n : ℕ) → n ≢ 27 → (int_to_char_point n ≡ "NaN") ⊎ (read_decimal (int_to_char_point n) ≡ some n)
unfolding int_to_char_point all_sound is_number
int_to_char_point-read_decimal n ne = find_case_sound n all_cases refl ne

-- The numbers up to 400 that have a wrong text or none.
abbrev is_gap : ℕ → Bool
is_gap n = n == 27 || n == 134 || (leb 144 n && leb n 149)

abbrev pub IsGap : ℕ → Type 0
IsGap n = (n ≡ 27) ⊎ (n ≡ 134) ⊎ ((144 ≤ n) × (n ≤ 149))

agrees : ℕ → Bool
agrees n =
    let reads = is_number (read_decimal (int_to_char_point n)) n in
    if is_gap n then not reads else reads

agrees_table : holds_below agrees 401 ≡ true
unfolding holds_below agrees is_number int_to_char_point
agrees_table = refl

agrees_iff : (n : ℕ) → agrees n ≡ true → (read_decimal (int_to_char_point n) ≡ some n) ↔ (¬ IsGap n)
unfolding agrees
agrees_iff n h = (
  λ e g.
      let wrong : is_number (read_decimal (int_to_char_point n)) n ≡ false = ground arith in
      is_number-false _ n wrong e,
  λ g.
      let right : is_number (read_decimal (int_to_char_point n)) n ≡ true = ground arith in
      is_number_sound _ n right,
)

-- Up to 400, the range that the comment in the source names, the texts that read back as their number
-- are those of all numbers but 27, 134 and 144 to 149.
pub int_to_char_point_range :
    (n : ℕ) → n ≤ 400 → (read_decimal (int_to_char_point n) ≡ some n) ↔ (¬ IsGap n)
int_to_char_point_range n h = agrees_iff n (holds_below_at agrees 401 agrees_table n (omega arith))
