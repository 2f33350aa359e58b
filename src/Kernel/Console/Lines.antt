-- ===== src/Kernel/Console/Lines.antt =====
-- Printing lines: the cursor stays on the screen, over any number of screens.
use sector_os.Base.{
  ℕ, suc, ◌+◌, ◌*◌, ◌≡◌, ◌<◌, ◌≤◌, ◌⊎◌, inl, inr, refl, ap, ◌∙◌, true, Option, none, some, ◌>>=◌,
  List, [], ◌∷◌, ◌++◌, length, length-append, arith, u8, lt→ltb, ge→ltb, codes, dec_lt,
}
use sector_os.Kernel.Console.{
  Console, put_at, clear_rows, put_char, is_control, control, wrap_line, print_with, copy_row,
  header, new_screen, printf,
}
use sector_os.Kernel.Console.Writing.{
  Spares, IsInside, Spares-trans, put_cell-Spares, clear_rows-Spares, copy_row-Spares,
  put_char-printed, AllPrinted, print_with-row,
}

-- A text of lines: characters from the blank on, and newlines.
abbrev pub AllOrdinary : List ℕ → Type 0
AllOrdinary [] = Unit {0}
AllOrdinary (c ∷ cs) = ((c ≡ b'\n') ⊎ (32 ≤ c)) × AllOrdinary cs

newline_moves :
    (sp_index : ℕ) (s : Console)
    → s.y < 25
    → put_char sp_index b'\n' s ≡ record s { y = s.y + 1; x = 0 }
unfolding put_char is_control control
newline_moves sp_index s row =
    let next : u8 (s.y + 1) ≡ s.y + 1 = omega arith in
    ap (λ (n : ℕ). record s { y = n; x = 0 }) next

print_newline :
    (at_end : Console → Option Console) (sp_index : ℕ) (s : Console)
    → s.y + 1 < 25
    → print_with at_end sp_index (b'\n' ∷ []) s ≡ some (record s { y = s.y + 1; x = 0 })
unfolding print_with wrap_line
print_newline at_end sp_index s row =
    rw (newline_moves sp_index s (omega arith), lt→ltb (s.y + 1) 25 row) refl

bind_chain :
    (o : Option Console) (f g h : Console → Option Console)
    → ((s : Console) → h s ≡ (f s >>= g))
    → (o >>= h) ≡ ((o >>= f) >>= g)
bind_chain none f g h step = refl
bind_chain (some s) f g h step = step s

print_with-append :
    (at_end : Console → Option Console) (sp_index : ℕ) (xs ys : List ℕ) (s : Console)
    → print_with at_end sp_index (xs ++ ys) s
      ≡ (print_with at_end sp_index xs s >>= λ s'. print_with at_end sp_index ys s')
unfolding print_with
print_with-append at_end sp_index [] ys s = refl
print_with-append at_end sp_index (x ∷ xs) ys s =
    bind_chain _ _ (λ s'. print_with at_end sp_index ys s') _
      (print_with-append at_end sp_index xs ys)

pub AllPrinted-append : (xs ys : List ℕ) → AllPrinted xs → AllPrinted ys → AllPrinted (xs ++ ys)
AllPrinted-append [] ys p q = q
AllPrinted-append (x ∷ xs) ys p q = (p.0, AllPrinted-append xs ys p.1 q)

module _ (version date : List ℕ) (named : AllPrinted version) (dated : AllPrinted date)
    (short : length version + length date ≤ 16) where
  header-AllPrinted : AllPrinted (header version date)
  unfolding header
  header-AllPrinted = AllPrinted-append (codes "SectorOS ") _ (omega arith) (
      AllPrinted-append version _ named (
        AllPrinted-append (codes "               ") _ (omega arith)
          (AllPrinted-append date _ dated (omega arith))))

  length-header : length (header version date) ≡ 63 + (length version + length date)
  unfolding header
  length-header =
      let ending = codes "                            Type: Shell" in
      let rest = codes "               " ++ (date ++ ending) in
      omega (arith, length-append version rest, length-append date ending)

  -- A new screen has its top in the first row, and the last row of the old one in the second.
  new_screen_lem :
      (depth sp_index : ℕ) (s : Console)
      → (cells : ℕ → ℕ) × (new_screen (suc depth) version date sp_index s
          ≡ some record { is_used = true; x = 0; y = 2; cells = cells })
        × Spares s.cells cells
  unfolding new_screen
  new_screen_lem depth sp_index s =
      let again = new_screen depth version date sp_index in
      let wiped = clear_rows 25 79 0 s.cells in
      let cleared = record s { is_used = true; x = 0; y = 0; cells = wiped } in
      let row = header version date in
      let (topped, done, spared) =
        print_with-row again sp_index row cleared header-AllPrinted (omega (arith, length-header))
          (omega arith) in
      let under = record cleared { x = 0 + length row; cells = topped } in
      let top : print_with again sp_index (row ++ b'\n' ∷ []) cleared
          ≡ some (record under { y = 1; x = 0 }) =
        print_with-append again sp_index row (b'\n' ∷ []) cleared
        ∙ rw done (print_newline again sp_index under (omega arith)) in
      let copied = copy_row 80 0 s.cells topped in
      let below =
        print_newline again sp_index (record under { y = 1; x = 0; cells = copied })
          (omega arith) in
      (
        copied,
        rw (top, below) refl,
        Spares-trans s.cells topped copied
            (Spares-trans s.cells wiped topped
              (clear_rows-Spares 25 79 0 s.cells (omega arith) (omega arith)) spared)
            (copy_row-Spares 80 0 s.cells topped (omega arith)),
      )

  -- A character, up to the test for the end of the screen.
  char_written :
      (sp_index c : ℕ) (s : Console)
      → ((c ≡ b'\n') ⊎ (32 ≤ c))
      → IsInside s
      → ((wrap_line (put_char sp_index c s)).x < 80)
        × Spares s.cells (wrap_line (put_char sp_index c s)).cells
  unfolding wrap_line put_at
  char_written sp_index c s (inl e) inside =
      rw (e, newline_moves sp_index s inside.row) (omega arith, λ j far. refl)
  char_written sp_index c s (inr printed) inside =
      let put = put_char-printed sp_index c s printed inside.column in
      let spared =
        put_cell-Spares c (80 * s.y + s.x) s.cells (omega (arith, inside.column, inside.row)) in
      elim (dec_lt (s.x + 1) 80) [
        | yes lt ↦ rw (put, lt→ltb (s.x + 1) 80 lt) (lt, spared)
        | no ge ↦ rw (put, ge→ltb (s.x + 1) 80 (omega arith)) (omega arith, spared)
      ]

  -- With a version and a date of at most 16 characters together that are printed, text of printed
  -- characters and newlines, however long, is printed from any place of the screen, with one call of
  -- `printf` within another for the top of a new screen: the cursor ends on the screen, and nothing
  -- outside it is written.
  pub printf-IsInside :
      (depth sp_index : ℕ) (text : List ℕ) (s : Console)
      → AllOrdinary text
      → IsInside s
      → (s' : Console) × (printf (suc depth) version date sp_index text s ≡ some s')
        × IsInside s'
        × Spares s.cells s'.cells
  unfolding printf print_with
  printf-IsInside depth sp_index [] s ordinary inside = (s, refl, inside, λ j far. refl)
  printf-IsInside depth sp_index (c ∷ cs) s ordinary inside =
      let wrapped = wrap_line (put_char sp_index c s) in
      let (column, spared) = char_written sp_index c s ordinary.0 inside in
      elim (dec_lt wrapped.y 25) [
        | yes lt ↦
            let (s', done, inside', spared') =
              printf-IsInside depth sp_index cs wrapped ordinary.1
                (record { column = column; row = lt }) in
            (
              s',
              rw (lt→ltb wrapped.y 25 lt) done,
              inside',
              Spares-trans s.cells wrapped.cells s'.cells spared spared',
            )
        | no ge ↦
            let (cells, renewed, kept) = new_screen_lem depth sp_index wrapped in
            let fresh : Console = record { is_used = true; x = 0; y = 2; cells = cells } in
            let (s', done, inside', spared') =
              printf-IsInside depth sp_index cs fresh ordinary.1
                (record { column = omega arith; row = omega arith }) in
            (
              s',
              rw (ge→ltb wrapped.y 25 (omega arith), renewed) done,
              inside',
              Spares-trans s.cells cells s'.cells
                  (Spares-trans s.cells wrapped.cells cells spared kept) spared',
            )
      ]
