-- ===== src/Emulator/Compare.antt =====
-- The case INS_CMP, after its two operands are fetched.
use sector_os.Base.{ℕ, ◌&&◌, ◌==◌, if◌then◌else◌, bit}
use sector_os.Emulator.State.{Cpu}

-- `E = 10` in the last branch keeps the lowest bit of ten.
unfoldable pub equal_bit : ℕ → ℕ → Cpu → ℕ
equal_bit so de s =
    if (so == 0x01) && (de == 0x02)
    then bit (s.a == s.x)
    else if (so == 0x01) && (de == 0x03)
    then bit (s.a == s.y)
    else if (so == 0x02) && (de == 0x01)
    then bit (s.x == s.a)
    else if (so == 0x02) && (de == 0x03)
    then bit (s.x == s.y)
    else if (so == 0x03) && (de == 0x01)
    then bit (s.y == s.a)
    else if (so == 0x03) && (de == 0x02)
    then bit (s.y == s.x)
    else if de == 0x01
    then bit (s.a == so)
    else if so == 0x01
    then bit (s.a == de)
    else if de == 0x02
    then bit (s.x == so)
    else if so == 0x02
    then bit (s.x == de)
    else if de == 0x03
    then bit (s.y == so)
    else if so == 0x03
    then bit (s.y == de)
    else 0

unfoldable pub compare_registers : ℕ → ℕ → Cpu → Cpu
unfolding equal_bit
compare_registers so de s = record s { e = equal_bit so de s }
