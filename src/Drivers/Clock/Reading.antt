-- ===== src/Drivers/Clock/Reading.antt =====
-- A clock that shows a time, and what is read from it.
use sector_os.Base.{
  ℕ, suc, ◌+◌, ◌*◌, ◌/◌, ◌%◌, ◌≡◌, ◌<◌, ◌≤◌, refl, Bool, true, false, some, ltb, ◌==◌,
  if◌then◌else◌, arith, holds_below, holds_below_at,
}
use sector_os.Drivers.Clock.{
  Time, Cmos, wait_for_update, read_registers, same_time, read_twice, from_bcd, hour_from_bcd,
  decode_time, to_24_hours, full_year, read_rtc,
}

-- A time of day in the years that the driver can tell apart.
pub record IsTime (t : Time) : Type 0 where
  pub second_range : t.second < 60
  pub minute_range : t.minute < 60
  pub hour_range : t.hour < 24
  pub day_range : t.day < 32
  pub month_range : t.month < 13
  pub year_range : (2021 ≤ t.year) × (t.year < 2121)

-- The formats of the device: binary, or two decimal digits; 24 hours, or 12 with a bit for the afternoon.
abbrev pub shown : Bool → ℕ → ℕ
shown binary v = if binary then v else v / 10 * 16 + v % 10

abbrev pub shown_hour : Bool → Bool → ℕ → ℕ
shown_hour binary whole_day h =
    if whole_day
    then shown binary h
    else shown binary (if h % 12 == 0 then 12 else h % 12) + (if ltb h 12 then 0 else 128)

-- Register B, with its other bits zero.
abbrev pub mode : Bool → Bool → ℕ
mode binary whole_day = (if binary then 4 else 0) + (if whole_day then 2 else 0)

-- The device is in state `s` for the whole reading, and shows `t`.
pub record Shows {S : Type 0} (cmos : Cmos S) (s : S) (binary whole_day : Bool) (t : Time)
    : Type 0 where
  pub settled : cmos 0x0A s ≡ (0, s)
  pub seconds : cmos 0x00 s ≡ (shown binary t.second, s)
  pub minutes : cmos 0x02 s ≡ (shown binary t.minute, s)
  pub hours : cmos 0x04 s ≡ (shown_hour binary whole_day t.hour, s)
  pub days : cmos 0x07 s ≡ (shown binary t.day, s)
  pub months : cmos 0x08 s ≡ (shown binary t.month, s)
  pub years : cmos 0x09 s ≡ (shown binary (t.year % 100), s)
  pub modes : cmos 0x0B s ≡ (mode binary whole_day, s)

-- The hour that the driver makes of an hour.
abbrev pub read_hour : Bool → ℕ → ℕ
read_hour whole_day h = if whole_day then h else if h == 0 then 12 else if h == 12 then 0 else h

from_bcd_table : holds_below (λ v. from_bcd (shown false v) == v) 100 ≡ true
unfolding holds_below from_bcd
from_bcd_table = refl

from_bcd-shown : (v : ℕ) → v < 100 → from_bcd (shown false v) ≡ v
from_bcd-shown v h =
    let e = holds_below_at (λ n. from_bcd (shown false n) == n) 100 from_bcd_table v h in
    ground arith

raw_hour : Bool → Bool → ℕ → ℕ
raw_hour binary whole_day h =
    if binary then shown_hour true whole_day h else hour_from_bcd (shown_hour false whole_day h)

hour_table :
    (binary whole_day : Bool)
    → holds_below
        (λ h.
          to_24_hours (mode binary whole_day) (raw_hour binary whole_day h)
          == read_hour whole_day h)
        24
      ≡ true
unfolding holds_below raw_hour to_24_hours hour_from_bcd
hour_table true true = refl
hour_table true false = refl
hour_table false true = refl
hour_table false false = refl

hour_read :
    (binary whole_day : Bool) (h : ℕ)
    → h < 24
    → to_24_hours (mode binary whole_day) (raw_hour binary whole_day h) ≡ read_hour whole_day h
hour_read binary whole_day h lt =
    let test = λ (n : ℕ).
      to_24_hours (mode binary whole_day) (raw_hour binary whole_day n) == read_hour whole_day n in
    let e = holds_below_at test 24 (hour_table binary whole_day) h lt in ground arith

same_time_self : (t : Time) → same_time t t ≡ true
unfolding same_time
same_time_self t = ground arith

-- The registers that are read.
abbrev raw : Bool → Bool → Time → Time
raw binary whole_day t = record {
  second = shown binary t.second;
  minute = shown binary t.minute;
  hour = shown_hour binary whole_day t.hour;
  day = shown binary t.day;
  month = shown binary t.month;
  year = shown binary (t.year % 100);
}

year_read : (y : ℕ) → 2021 ≤ y → y < 2121 → full_year (y % 100) ≡ y
unfolding full_year
year_read y low high = ground arith

decoded :
    (binary whole_day : Bool) (t : Time)
    → IsTime t
    → decode_time (mode binary whole_day) (raw binary whole_day t)
      ≡ record t { hour = raw_hour binary whole_day t.hour; year = t.year % 100 }
unfolding decode_time raw_hour
decoded true true t v = refl
decoded true false t v = refl
decoded false true t v =
    rw
      (
        from_bcd-shown t.second (omega (arith, v.second_range)),
        from_bcd-shown t.minute (omega (arith, v.minute_range)),
        from_bcd-shown t.day (omega (arith, v.day_range)),
        from_bcd-shown t.month (omega (arith, v.month_range)),
        from_bcd-shown (t.year % 100) (omega arith),
      )
      refl
decoded false false t v =
    rw
      (
        from_bcd-shown t.second (omega (arith, v.second_range)),
        from_bcd-shown t.minute (omega (arith, v.minute_range)),
        from_bcd-shown t.day (omega (arith, v.day_range)),
        from_bcd-shown t.month (omega (arith, v.month_range)),
        from_bcd-shown (t.year % 100) (omega arith),
      )
      refl

module _ {S : Type 0} (cmos : Cmos S) (s : S) (binary whole_day : Bool) (t : Time)
    (w : Shows cmos s binary whole_day t) where
  registers_read : read_registers cmos s ≡ (raw binary whole_day t, s)
  unfolding read_registers
  registers_read = rw (w.seconds, w.minutes, w.hours, w.days, w.months, w.years) refl

  settled : (fuel : ℕ) → wait_for_update (suc fuel) cmos s ≡ some s
  unfolding wait_for_update
  settled fuel = rw (w.settled) refl

  -- A clock that shows a time of the years 2021 to 2120, in either of its formats, is read in one round
  -- of each loop: the time is the time that it shows, but that in the format of twelve hours noon and
  -- midnight are exchanged.
  pub read_rtc-Shows :
      (fuel : ℕ)
      → IsTime t
      → read_rtc (suc fuel) cmos s ≡ some (record t { hour = read_hour whole_day t.hour }, s)
  unfolding read_rtc read_twice
  read_rtc-Shows fuel v =
      rw
        (
          settled fuel,
          registers_read,
          settled fuel,
          registers_read,
          same_time_self (raw binary whole_day t),
          w.modes,
          decoded binary whole_day t v,
          hour_read binary whole_day t.hour v.hour_range,
          year_read t.year v.year_range.0 v.year_range.1,
        )
        refl
