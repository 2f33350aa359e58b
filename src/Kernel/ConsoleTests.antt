-- ===== src/Kernel/ConsoleTests.antt =====
-- The console at concrete inputs.
use sector_os.Base.{
  ℕ, zero, ◌≡◌, refl, true, false, some, ◌==◌, if◌then◌else◌, inl, inr, arith, codes,
}
use sector_os.Drivers.Clock.{Time, Cmos, read_rtc}
use sector_os.Drivers.Clock.Reading.{IsTime, Shows}
use sector_os.Kernel.Console.{
  Console, date_text, printf, put_char, is_control, control, delete_before, put_at,
}
use sector_os.Kernel.Console.Writing.{Spares, IsInside}
use sector_os.Kernel.Console.Dates.{printf_today}

abbrev evening : Time
evening = record { second = 5; minute = 40; hour = 21; day = 3; month = 9; year = 2024 }

-- A binary clock of 24 hours.
abbrev clock : Cmos ℕ
clock zero s = (5, s)
clock r s =
    if r == 2
    then (40, s)
    else if r == 4
    then (21, s)
    else if r == 7
    then (3, s)
    else if r == 8
    then (9, s)
    else if r == 9
    then (24, s)
    else if r == 11
    then (6, s)
    else (0, s)

clock-Shows : Shows clock 0 true true evening
clock-Shows = record {
  settled = refl;
  seconds = refl;
  minutes = refl;
  hours = refl;
  days = refl;
  months = refl;
  years = refl;
  modes = refl;
}

evening-IsTime : IsTime evening
evening-IsTime = record {
  second_range = omega arith;
  minute_range = omega arith;
  hour_range = omega arith;
  day_range = omega arith;
  month_range = omega arith;
  year_range = omega arith;
}

-- The cursor stands at the last place of the screen.
abbrev full : Console
full = record { x = 79; y = 24; is_used = false; cells = λ i. 0x0700 }

full-IsInside : IsInside full
full-IsInside = record { column = omega arith; row = omega arith }

printf_today_example :
    (now : Time) × (c' : Console) × (read_rtc 1 clock 0 ≡ some (now, 0))
    × (printf 1 (codes "V1") (date_text now) 0 (codes "a\n") full ≡ some c')
    × IsInside c'
    × Spares full.cells c'.cells
printf_today_example =
    printf_today clock 0 true true evening clock-Shows evening-IsTime 0 0 0 (codes "V1")
      (codes "a\n") full (omega arith) (omega arith) (inr (omega arith), (inl refl, tt))
      full-IsInside

-- Deleting in the first column, where the prompt is elsewhere, leaves the row.
abbrev left : Console
left = record { x = 0; y = 24; is_used = false; cells = λ i. 0x0700 }

deleting_leaves : (put_char 14 3 left).x ≡ 255
unfolding put_char is_control control delete_before put_at
deleting_leaves = refl
