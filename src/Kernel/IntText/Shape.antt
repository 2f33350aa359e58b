-- ===== src/Kernel/IntText/Shape.antt =====
-- The texts as they are printed: how long they are, and their characters.
use Prim.Native.String.{String}
use sector_os.Base.{
  ℕ, ◌≡◌, ◌≤◌, ◌<◌, refl, Bool, true, false, inl, inr, ◌&&◌, List, [], ◌∷◌, ◌==◌, leb, length,
  arith, Bool-cases, codes, holds_below, holds_below_at,
}
use sector_os.Kernel.IntText.Table.{Cases}
use sector_os.Kernel.IntText.{int_to_char_point, find_case, all_cases}

-- Characters from the blank on.
abbrev pub are_printed : List ℕ → Bool
are_printed [] = true
are_printed (c ∷ cs) = leb 32 c && are_printed cs

abbrev is_short : String → Bool
is_short text = leb (length (codes text)) 4 && are_printed (codes text)

all_short : Cases → Bool
all_short [] = true
all_short ((n, text) ∷ rest) = is_short text && all_short rest

both : (a b : Bool) → (a && b) ≡ true → (a ≡ true) × (b ≡ true)
both true true h = (refl, refl)
both true false h = (refl, h)
both false b h = cc

find_case_short : (n : ℕ) (cs : Cases) → all_short cs ≡ true → is_short (find_case n cs) ≡ true
unfolding find_case all_short
find_case_short n [] h = refl
find_case_short n ((m, text) ∷ rest) h =
    let (here, later) = both (is_short text) (all_short rest) h in
    elim (Bool-cases (n == m)) [ inl e ↦ rw e here | inr e ↦ rw e (find_case_short n rest later) ]

pub int_to_char_point-short :
    (n : ℕ)
    → (length (codes (int_to_char_point n)) ≤ 4)
      × (are_printed (codes (int_to_char_point n)) ≡ true)
unfolding int_to_char_point all_short
int_to_char_point-short n =
    let (short, printed) =
      both (leb (length (codes (int_to_char_point n))) 4)
        (are_printed (codes (int_to_char_point n))) (find_case_short n all_cases refl) in
    (ground arith, printed)

two_table : holds_below (λ n. leb (length (codes (int_to_char_point n))) 2) 100 ≡ true
unfolding holds_below int_to_char_point
two_table = refl

pub int_to_char_point_two : (n : ℕ) → n < 100 → length (codes (int_to_char_point n)) ≤ 2
int_to_char_point_two n lt =
    let e = holds_below_at (λ m. leb (length (codes (int_to_char_point m))) 2) 100 two_table n lt in
    ground arith
