-- ===== src/Kernel/Console/Writing.antt =====
-- Writing on the screen: what is written where, and where the cursor goes.
use sector_os.Base.{
  ℕ, zero, suc, ◌+◌, ◌*◌, ◌%◌, ◌≡◌, ◌<◌, ◌≤◌, refl, sym, ◌∙◌, false, Option, some, List, [], ◌∷◌,
  length, arith, u8, update_ne, lt→ltb,
}
use sector_os.Kernel.Console.{
  Console, put_cell, put_at, blank, clear_rows, put_char, wrap_line, print_with, is_control,
  copy_row,
}

-- Video memory behind the screen's 2000 cells is left as it is.
abbrev pub Spares : (ℕ → ℕ) → (ℕ → ℕ) → Type 0
Spares old new = (j : ℕ) → 2000 ≤ j → new j ≡ old j

pub record IsInside (s : Console) : Type 0 where
  pub column : s.x < 80
  pub row : s.y < 25

pub Spares-trans : (a b c : ℕ → ℕ) → Spares a b → Spares b c → Spares a c
Spares-trans a b c p q j far = q j far ∙ p j far

pub put_cell-Spares : (c i : ℕ) (cells : ℕ → ℕ) → i < 2000 → Spares cells (put_cell c i cells)
unfolding put_cell
put_cell-Spares c i cells near j far = update_ne cells i j _ (omega arith)

blank-Spares : (n i : ℕ) (cells : ℕ → ℕ) → i + n ≤ 2000 → Spares cells (blank n i cells)
unfolding blank
blank-Spares zero i cells near j far = refl
blank-Spares (suc n) i cells near j far =
    blank-Spares n (i + 1) _ (omega arith) j far ∙ put_cell-Spares b' ' i cells (omega arith) j far

pub clear_rows-Spares :
    (rows columns y : ℕ) (cells : ℕ → ℕ)
    → y + rows ≤ 25
    → columns ≤ 80
    → Spares cells (clear_rows rows columns y cells)
unfolding clear_rows
clear_rows-Spares zero columns y cells low narrow j far = refl
clear_rows-Spares (suc rows) columns y cells low narrow j far =
    clear_rows-Spares rows columns (y + 1) _ (omega arith) narrow j far
    ∙ blank-Spares columns (80 * y) cells (omega arith) j far

pub copy_row-Spares :
    (n i : ℕ) (old cells : ℕ → ℕ) → i + n ≤ 80 → Spares cells (copy_row n i old cells)
unfolding copy_row
copy_row-Spares zero i old cells near j far = refl
copy_row-Spares (suc n) i old cells near j far =
    copy_row-Spares n (i + 1) old _ (omega arith) j far
    ∙ put_cell-Spares (old (80 * 24 + i) % 256) (80 + i) cells (omega arith) j far

is_control-printed : (c : ℕ) → 32 ≤ c → is_control c ≡ false
unfolding is_control
is_control-printed c printed = ground arith

-- A character that is printed and moves the cursor on.
pub put_char-printed :
    (sp_index c : ℕ) (s : Console)
    → 32 ≤ c
    → s.x < 80
    → put_char sp_index c s ≡ record (put_at c s) { x = s.x + 1 }
unfolding put_char
put_char-printed sp_index c s printed inside =
    let next : u8 (s.x + 1) ≡ s.x + 1 = omega arith in rw (is_control-printed c printed, next) refl

-- A text of such characters only.
abbrev pub AllPrinted : List ℕ → Type 0
AllPrinted [] = Unit {0}
AllPrinted (c ∷ cs) = (32 ≤ c) × AllPrinted cs

-- A text that fits into the row.
pub print_with-row :
    (at_end : Console → Option Console) (sp_index : ℕ) (text : List ℕ) (s : Console)
    → AllPrinted text
    → s.x + length text < 80
    → s.y < 25
    → (cells : ℕ → ℕ) × (print_with at_end sp_index text s
        ≡ some (record s { x = s.x + length text; cells = cells }))
      × Spares s.cells cells
unfolding print_with wrap_line put_at
print_with-row at_end sp_index [] s printed fits row =
    let here : s.x + 0 ≡ s.x = omega arith in (s.cells, rw here refl, λ j far. refl)
print_with-row at_end sp_index (c ∷ cs) s printed fits row =
    let (first, rest) = printed in
    let put = put_char-printed sp_index c s first (omega arith) in
    let here = record (put_at c s) { x = s.x + 1 } in
    let (cells, done, spared) = print_with-row at_end sp_index cs here rest (omega arith) row in
    let end : s.x + 1 + length cs ≡ s.x + suc (length cs) = omega arith in
    (
      cells,
      rw (put, lt→ltb (s.x + 1) 80 (omega arith), lt→ltb s.y 25 row, sym end) done,
      Spares-trans s.cells here.cells cells
          (put_cell-Spares c (80 * s.y + s.x) s.cells (omega arith)) spared,
    )
