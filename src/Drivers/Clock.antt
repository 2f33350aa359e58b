-- ===== src/Drivers/Clock.antt =====
-- Drivers/RTC.cpp: the real-time clock, behind the two ports of the CMOS. The device is a parameter: a
-- function from a register and the device's state to the register's value and the next state.
-- `century_register` is 0, and nothing changes it, so that the century is never read.
pub mod Reading
use sector_os.Base.{
  ℕ, zero, suc, ◌+◌, ◌*◌, ◌/◌, ◌%◌, Bool, true, false, not, ◌&&◌, Option, none, some, ◌>>=◌, ltb,
  ◌==◌, if◌then◌else◌, bit_and, bit_or,
}

pub record Time : Type 0 where
  pub second : ℕ
  pub minute : ℕ
  pub hour : ℕ
  pub day : ℕ
  pub month : ℕ
  pub year : ℕ

-- A write of the register's number to the one port, and a read of the other.
abbrev pub Cmos : Type 0 → Type 0
Cmos S = ℕ → S → ℕ × S

-- `while (get_update_in_progress_flag());`, on fuel.
unfoldable pub wait_for_update : {S : Type 0} → ℕ → Cmos S → S → Option S
wait_for_update zero cmos s = none
wait_for_update (suc fuel) cmos s =
    let (flag, s') = cmos 0x0A s in
    let rest = wait_for_update fuel cmos s' in if bit_and flag 0x80 == 0 then some s' else rest

-- The registers of the time, in the order of the source.
unfoldable pub read_registers : {S : Type 0} → Cmos S → S → Time × S
read_registers cmos s =
    let (second, s0) = cmos 0x00 s in
    let (minute, s1) = cmos 0x02 s0 in
    let (hour, s2) = cmos 0x04 s1 in
    let (day, s3) = cmos 0x07 s2 in
    let (month, s4) = cmos 0x08 s3 in
    let (year, s5) = cmos 0x09 s4 in
    (
      record {
        second = second;
        minute = minute;
        hour = hour;
        day = day;
        month = month;
        year = year;
      },
      s5,
    )

unfoldable pub same_time : Time → Time → Bool
same_time t u =
    t.second == u.second
    && t.minute == u.minute
    && t.hour == u.hour
    && t.day == u.day
    && t.month == u.month
    && t.year == u.year

-- The `do` loop, on fuel: until two readings agree. Each reading waits on fuel of its own.
unfoldable pub read_twice : {S : Type 0} → ℕ → Cmos S → Time → S → Option (Time × S)
read_twice zero cmos last s = none
read_twice (suc fuel) cmos last s = do
  s' ← wait_for_update (suc fuel) cmos s
  let (t, s'') = read_registers cmos s'
  let rest = read_twice fuel cmos t s''
  if same_time last t then some (t, s'') else rest

-- What follows the loop: from two decimal digits, from twelve hours, and the century.
unfoldable pub from_bcd : ℕ → ℕ
from_bcd v = bit_and v 0x0F + v / 16 * 10

unfoldable pub hour_from_bcd : ℕ → ℕ
hour_from_bcd v = bit_or (bit_and v 0x0F + bit_and v 0x70 / 16 * 10) (bit_and v 0x80)

unfoldable pub decode_time : ℕ → Time → Time
unfolding from_bcd hour_from_bcd
decode_time register_b t =
    if bit_and register_b 0x04 == 0
    then record {
      second = from_bcd t.second;
      minute = from_bcd t.minute;
      hour = hour_from_bcd t.hour;
      day = from_bcd t.day;
      month = from_bcd t.month;
      year = from_bcd t.year;
    }
    else t

unfoldable pub to_24_hours : ℕ → ℕ → ℕ
to_24_hours register_b hour =
    if bit_and register_b 0x02 == 0 && not (bit_and hour 0x80 == 0)
    then (bit_and hour 0x7F + 12) % 24
    else hour

unfoldable pub current_year : ℕ
current_year = 2021

unfoldable pub full_year : ℕ → ℕ
unfolding current_year
full_year year =
    let with_century = year + current_year / 100 * 100 in
    if ltb with_century current_year then with_century + 100 else with_century

-- `read_rtc`
unfoldable pub read_rtc : {S : Type 0} → ℕ → Cmos S → S → Option (Time × S)
read_rtc fuel cmos s = do
  s' ← wait_for_update fuel cmos s
  let (first, s'') = read_registers cmos s'
  (raw, s3) ← read_twice fuel cmos first s''
  let (register_b, s4) = cmos 0x0B s3
  let t = decode_time register_b raw
  some (record t { hour = to_24_hours register_b t.hour; year = full_year t.year }, s4)
