-- ===== src/Kernel/Console.antt =====
-- The console of kernel/kernel.cpp: `printf`, `printfchar`, `PrintDate` and `printTime`. The screen is 80
-- columns by 25 rows of characters with attributes; the cursor's column and row are `uint8_t`. The version,
-- which the build defines, and the time that the clock gives are arguments.
pub mod Writing
pub mod Lines
pub mod Dates
use sector_os.Base.{
  ℕ, zero, suc, ◌+◌, ◌-◌, ◌*◌, ◌%◌, Bool, true, false, not, ◌&&◌, ◌||◌, Option, none, some, ◌>>=◌,
  List, [], ◌∷◌, ◌++◌, get_or, leb, ltb, ◌==◌, if◌then◌else◌, bit_and, bit_or, update, u8, codes,
}
use sector_os.Kernel.IntText.{int_to_char_point}
use sector_os.Drivers.Clock.{Time}

-- `x`, `y`, `isused` and `VideoMemory`.
pub record Console : Type 0 where
  pub x : ℕ
  pub y : ℕ
  pub is_used : Bool
  pub cells : ℕ → ℕ

-- `VideoMemory[i] = (VideoMemory[i] & 0xFF00) | c`, where `c` is a signed character.
unfoldable pub put_cell : ℕ → ℕ → (ℕ → ℕ) → ℕ → ℕ
put_cell c i cells =
    update cells i (bit_or (bit_and (cells i) 0xFF00) (if ltb c 128 then c else c + 0xFF00))

-- `VideoMemory[80 * y + x] = ...`
unfoldable pub put_at : ℕ → Console → Console
unfolding put_cell
put_at c s = record s { cells = put_cell c (80 * s.y + s.x) s.cells }

-- Blanks from a cell on, as many.
unfoldable pub blank : ℕ → ℕ → (ℕ → ℕ) → ℕ → ℕ
unfolding put_cell
blank zero i cells = cells
blank (suc n) i cells = blank n (i + 1) (put_cell b' ' i cells)

-- `for (y = 0; y < 25; y++) for (x = 0; x < columns; x++)`, from a row on, as many rows.
unfoldable pub clear_rows : ℕ → ℕ → ℕ → (ℕ → ℕ) → ℕ → ℕ
unfolding blank
clear_rows zero columns y cells = cells
clear_rows (suc rows) columns y cells =
    clear_rows rows columns (y + 1) (blank columns (80 * y) cells)

-- The cases of the `switch`. `cursorx` is the column as the character finds it, and `sp_index` is `SPIndex`.
unfoldable pub clear_screen : Console → Console
unfolding clear_rows
clear_screen s = record s { cells = clear_rows 25 80 0 s.cells; x = 0; y = 0 }

unfoldable pub delete_before : ℕ → Console → Console
unfolding put_at
delete_before sp_index s =
    put_at b' ' (if s.x == sp_index then s else record s { x = u8 (s.x + 255) })

unfoldable pub delete_text : Console → Console
unfolding put_at
delete_text s =
    let left = record s { x = u8 (s.x + 255) } in
    if left.x == 0 && not (left.y == 0)
    then put_at b' ' (record (put_at b' ' left) { y = left.y - 1; x = 79 })
    else if left.y == 0
    then put_at b' ' (record left { y = 1 })
    else put_at b' ' left

-- The cases with a code below the blank. The row above the first is the second one for `'\7'`.
unfoldable pub is_control : ℕ → Bool
is_control c = c == b'\n' || c == 5 || c == 3 || c == 12 || c == 7 || c == 4 || c == 2 || c == 6

unfoldable pub control : ℕ → ℕ → Console → Console
unfolding clear_screen delete_before delete_text
control sp_index c s =
    if c == b'\n'
    then record s { y = u8 (s.y + 1); x = 0 }
    else if c == 5
    then clear_screen s
    else if c == 3
    then delete_before sp_index s
    else if c == 12
    then delete_text s
    else if c == 7
    then record s { y = if s.y == 0 then 1 else s.y - 1 }
    else if c == 4
    then record s { x = u8 (s.x + 255) }
    else if c == 2
    then record s { y = if s.y == 25 then s.y else u8 (s.y + 1) }
    else record s { x = if s.x == 80 then s.x else u8 (s.x + 1) }

-- The `switch`.
unfoldable pub put_char : ℕ → ℕ → Console → Console
unfolding put_at
put_char sp_index c s =
    if is_control c then control sp_index c s else record (put_at c s) { x = u8 (s.x + 1) }

-- `if (x >= 80)`
unfoldable pub wrap_line : Console → Console
wrap_line s = if ltb s.x 80 then s else record s { y = u8 (s.y + 1); x = 0 }

-- The loop of `printf`, with what is done at the end of the screen.
unfoldable pub print_with : (Console → Option Console) → ℕ → List ℕ → Console → Option Console
unfolding put_char wrap_line
print_with at_end sp_index [] s = some s
print_with at_end sp_index (c ∷ cs) s = do
  let wrapped = wrap_line (put_char sp_index c s)
  s' ← if ltb wrapped.y 25 then some wrapped else at_end wrapped
  print_with at_end sp_index cs s'

-- The last row, as characters, is put into the second one: `VideoMemory[80 * 1 + i]`, from a column on.
unfoldable pub copy_row : ℕ → ℕ → (ℕ → ℕ) → (ℕ → ℕ) → ℕ → ℕ
unfolding put_cell
copy_row zero i old cells = cells
copy_row (suc n) i old cells =
    copy_row n (i + 1) old (put_cell (old (80 * 24 + i) % 256) (80 + i) cells)

-- What `PrintDate` prints.
unfoldable pub date_text : Time → List ℕ
unfolding int_to_char_point
date_text t =
    codes (int_to_char_point t.day)
    ++ b'/' ∷ (codes (int_to_char_point t.month) ++ b'/' ∷ codes (int_to_char_point t.year))

-- What is printed at the top of a new screen, but for the newline.
unfoldable pub header : List ℕ → List ℕ → List ℕ
header version date =
    codes "SectorOS "
    ++ (version
        ++ (codes "               " ++ (date ++ codes "                            Type: Shell")))

-- The end of the screen: the screen is cleared but for its last column, the top is printed by `printf`
-- itself, and the last row is put below it. As many calls of `printf` within one another.
unfoldable pub new_screen : ℕ → List ℕ → List ℕ → ℕ → Console → Option Console
new_screen zero version date sp_index s = none
new_screen (suc depth) version date sp_index s = do
  let cleared = record s { is_used = true; x = 0; y = 0; cells = clear_rows 25 79 0 s.cells }
  let again = new_screen depth version date sp_index
  topped ← print_with again sp_index (header version date ++ b'\n' ∷ []) cleared
  print_with again sp_index (b'\n' ∷ [])
      (record topped { cells = copy_row 80 0 s.cells topped.cells })

-- `printf`, but for the shape of the cursor that it sets at the end.
unfoldable pub printf : ℕ → List ℕ → List ℕ → ℕ → List ℕ → Console → Option Console
printf depth version date sp_index text s =
    print_with (new_screen depth version date sp_index) sp_index text s

-- `printfchar`, whose screen is cleared without a top.
unfoldable pub print_char : ℕ → Console → Console
unfolding put_at wrap_line clear_screen
print_char c s =
    let put =
      if c == b'\n'
      then record s { y = u8 (s.y + 1); x = 0 }
      else record (put_at c s) { x = u8 (s.x + 1) } in
    let wrapped = wrap_line put in if ltb wrapped.y 25 then wrapped else clear_screen wrapped

-- `printTime`: three characters of a text, whose third one may be the zero behind it.
unfoldable pub put_three : List ℕ → ℕ → (ℕ → ℕ) → ℕ → ℕ
unfolding put_cell
put_three text i cells =
    put_cell (get_or text 2 0) (i + 2)
      (put_cell (get_or text 1 0) (i + 1) (put_cell (get_or text 0 0) i cells))

unfoldable pub print_time : Time → (ℕ → ℕ) → ℕ → ℕ
unfolding put_three int_to_char_point
print_time t cells =
    let hours = put_three (codes (int_to_char_point t.hour)) 51 cells in
    let minutes = put_three (codes (int_to_char_point t.minute)) 54 (put_cell b':' 53 hours) in
    put_three (codes (int_to_char_point t.second)) 57 (put_cell b',' 56 minutes)
