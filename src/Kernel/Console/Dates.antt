-- ===== src/Kernel/Console/Dates.antt =====
-- The console with the clock: the date at the top of a new screen is the one that the clock shows.
use sector_os.Base.{
  ℕ, suc, ◌≡◌, ◌≤◌, ◌<◌, Bool, true, some, List, [], ◌∷◌, ◌++◌, length, length-append, arith, codes,
}
use sector_os.Drivers.Clock.{Time, Cmos, read_rtc}
use sector_os.Drivers.Clock.Reading.{IsTime, Shows, read_hour, read_rtc-Shows}
use sector_os.Kernel.IntText.{int_to_char_point}
use sector_os.Kernel.IntText.Shape.{are_printed, int_to_char_point-short, int_to_char_point_two}
use sector_os.Kernel.Console.{Console, date_text, printf}
use sector_os.Kernel.Console.Writing.{Spares, IsInside, AllPrinted}
use sector_os.Kernel.Console.Lines.{AllOrdinary, AllPrinted-append, printf-IsInside}

are_printed-AllPrinted : (cs : List ℕ) → are_printed cs ≡ true → AllPrinted cs
are_printed-AllPrinted [] h = tt
are_printed-AllPrinted (c ∷ cs) h =
    let first : 32 ≤ c = ground arith in
    let rest : are_printed cs ≡ true = ground arith in (first, are_printed-AllPrinted cs rest)

date_text-AllPrinted : (t : Time) → AllPrinted (date_text t)
unfolding date_text
date_text-AllPrinted t =
    let part = λ (n : ℕ).
      are_printed-AllPrinted (codes (int_to_char_point n)) (int_to_char_point-short n).1 in
    AllPrinted-append (codes (int_to_char_point t.day)) _ (part t.day) (
      omega arith,
      AllPrinted-append (codes (int_to_char_point t.month)) _ (part t.month)
          (omega arith, part t.year),
    )

length-date_text : (t : Time) → t.day < 100 → t.month < 100 → length (date_text t) ≤ 10
unfolding date_text
length-date_text t d m =
    let day = codes (int_to_char_point t.day) in
    let month = codes (int_to_char_point t.month) in
    let year = codes (int_to_char_point t.year) in
    omega (
      arith,
      length-append day (b'/' ∷ (month ++ b'/' ∷ year)),
      length-append month (b'/' ∷ year),
      int_to_char_point_two t.day d,
      int_to_char_point_two t.month m,
      (int_to_char_point-short t.year).0,
    )

-- From a clock that shows a time of the years 2021 to 2120 the time is read, and with its date, and a version
-- of at most six printed characters, text of printed characters and newlines, however long, is printed
-- from any place of the screen, with one call of `printf` within another for the top of a new screen: the
-- cursor ends on the screen, and nothing outside it is written.
pub printf_today :
    {S : Type 0} (cmos : Cmos S) (s : S) (binary whole_day : Bool) (t : Time)
    → Shows cmos s binary whole_day t
    → IsTime t
    → (fuel depth sp_index : ℕ) (version text : List ℕ) (c : Console) → AllPrinted version
    → length version ≤ 6
    → AllOrdinary text
    → IsInside c
    → (now : Time) × (c' : Console) × (read_rtc (suc fuel) cmos s ≡ some (now, s))
      × (printf (suc depth) version (date_text now) sp_index text c ≡ some c')
      × IsInside c'
      × Spares c.cells c'.cells
printf_today cmos s binary whole_day t w v fuel depth sp_index version text c named short ordinary
      inside =
    let now = record t { hour = read_hour whole_day t.hour } in
    let fits = length-date_text now (omega (arith, v.day_range)) (omega (arith, v.month_range)) in
    let (c', done, inside', spared) =
      printf-IsInside version (date_text now) named (date_text-AllPrinted now) (omega arith) depth
        sp_index text c ordinary inside in
    (now, c', read_rtc-Shows cmos s binary whole_day t w fuel v, done, inside', spared)
