-- ===== src/Drivers/DeviceTests.antt =====
-- The clock, the mouse and the disk at concrete inputs.
use sector_os.Base.{
  ℕ, zero, suc, ◌+◌, ◌%◌, ◌≡◌, refl, Bool, false, some, List, [], ◌∷◌, arith, get_or, ltb, ◌==◌,
  if◌then◌else◌,
}
use sector_os.Drivers.Clock.{Time, Cmos, read_rtc}
use sector_os.Drivers.Clock.Reading.{IsTime, Shows, read_rtc-Shows}
use sector_os.Drivers.Mouse.Packets.{mouse_bytes, waiting, packets, one_button, packets_reported}
use sector_os.Drivers.Disk.{Drive, DiskEvent, read28, write28}
use sector_os.Drivers.Disk.Words.{sent, addressed, selects_master}
use sector_os.Drivers.Disk.Sectors.{IsDrive, whole_sector, write28-read28}

abbrev noon : Time
noon = record { second = 59; minute = 30; hour = 12; day = 27; month = 11; year = 2026 }

-- A clock of two decimal digits and twelve hours, with one state.
abbrev clock : Cmos ℕ
clock zero s = (0x59, s)
clock (suc zero) s = (0, s)
clock r s =
    if r == 2
    then (0x30, s)
    else if r == 4
    then (0x92, s)
    else if r == 7
    then (0x27, s)
    else if r == 8
    then (0x11, s)
    else if r == 9
    then (0x26, s)
    else (0, s)

clock-Shows : Shows clock 0 false false noon
clock-Shows = record {
  settled = refl;
  seconds = refl;
  minutes = refl;
  hours = refl;
  days = refl;
  months = refl;
  years = refl;
  modes = refl;
}

noon-IsTime : IsTime noon
noon-IsTime = record {
  second_range = omega arith;
  minute_range = omega arith;
  hour_range = omega arith;
  day_range = omega arith;
  month_range = omega arith;
  year_range = omega arith;
}

read_rtc-Shows_example : read_rtc 1 clock 0 ≡ some (record noon { hour = 0 }, 0)
read_rtc-Shows_example = read_rtc-Shows clock 0 false false noon clock-Shows 0 noon-IsTime

-- The first button is pressed, then the second, while the mouse moves.
abbrev pressed : List (ℕ × ℕ × ℕ)
pressed = (9, 3, 250) ∷ ((10, 1, 1) ∷ [])

packets_reported_example :
    (mouse_bytes (packets pressed) (waiting 0 0 0 8)).0 ≡ one_button 8 pressed
packets_reported_example =
    packets_reported pressed 0 0 0 8 (omega arith, (omega arith, tt)) (omega arith)

abbrev bytes : ℕ → ℕ
bytes j = (j + 65) % 256

abbrev written : List DiskEvent
written = write28 false 0x1234567 bytes 5

-- A drive that is always ready, and has what was written in every sector.
abbrev image : Bool → ℕ → ℕ → ℕ
image master sector i = get_or (sent written) i 0

abbrev drive : Drive
drive = record { status = λ w n. 0x58; word = λ w i. image (selects_master w) (addressed w) i }

drive-IsDrive : IsDrive drive 1 image
drive-IsDrive = record {
  settles = λ w. (0, omega arith, λ k h. absurd (omega arith), refl, refl);
  reads = λ w i command one lt. refl;
}

write28-read28_example :
    read28 1 drive false 0x1234567 (λ j. 0) 7
    ≡ some
        (whole_sector false 0x1234567 (λ j. if ltb j 7 then if ltb j 5 then bytes j else 0 else 0))
write28-read28_example =
    write28-read28 false 0x1234567 bytes 5 (omega arith) (omega arith) (λ j. omega arith) drive 1
      image drive-IsDrive (λ i lt. refl) (λ j. 0) 7 (omega arith)
