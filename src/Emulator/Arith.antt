-- ===== src/Emulator/Arith.antt =====
-- The cases INS_DEC, INS_INC, INS_ADD and INS_SUB, after their operands are fetched.
use sector_os.Base.{ℕ, ◌+◌, ◌==◌, ltb, if◌then◌else◌, u8, sub8, bit, bit_and}
use sector_os.Emulator.State.{Cpu}

-- `Z = (r == 0); N = (r & 0B10000000) > 0;`
unfoldable pub set_flags : ℕ → Cpu → Cpu
set_flags r s = record s { z = bit (r == 0); n = bit (ltb 0 (bit_and r 0x80)) }

unfoldable pub decrement : ℕ → Cpu → Cpu
decrement reg s =
    if reg == 0x01
    then (let r = sub8 s.a 1 in set_flags r (record s { a = r }))
    else if reg == 0x02
    then (let r = sub8 s.x 1 in set_flags r (record s { x = r }))
    else if reg == 0x03
    then (let r = sub8 s.y 1 in set_flags r (record s { y = r }))
    else if reg == 0x04
    then (let r = sub8 s.q 1 in set_flags r (record s { q = r }))
    else s

-- No flag is set.
unfoldable pub increment : ℕ → Cpu → Cpu
increment reg s =
    if reg == 0x01
    then record s { a = u8 (s.a + 1) }
    else if reg == 0x02
    then record s { x = u8 (s.x + 1) }
    else if reg == 0x03
    then record s { y = u8 (s.y + 1) }
    else if reg == 0x04
    then record s { q = u8 (s.q + 1) }
    else s

unfoldable pub add_registers : ℕ → ℕ → Cpu → Cpu
add_registers dest sour s =
    if dest == 0x01
    then (if sour == 0x02
        then record s { a = u8 (s.x + s.a) }
        else if sour == 0x03
        then record s { a = u8 (s.y + s.a) }
        else s)
    else if dest == 0x02
    then (if sour == 0x01
        then record s { x = u8 (s.a + s.x) }
        else if sour == 0x03
        then record s { x = u8 (s.y + s.x) }
        else s)
    else if dest == 0x03
    then (if sour == 0x01
        then record s { y = u8 (s.a + s.y) }
        else if sour == 0x02
        then record s { y = u8 (s.x + s.y) }
        else s)
    else s

-- The difference is source minus destination.
unfoldable pub sub_registers : ℕ → ℕ → Cpu → Cpu
sub_registers dest sour s =
    if dest == 0x01
    then (if sour == 0x02
        then (let r = sub8 s.x s.a in set_flags r (record s { a = r }))
        else if sour == 0x03
        then (let r = sub8 s.y s.a in set_flags r (record s { a = r }))
        else s)
    else if dest == 0x02
    then (if sour == 0x01
        then (let r = sub8 s.a s.x in set_flags r (record s { x = r }))
        else if sour == 0x03
        then (let r = sub8 s.y s.x in set_flags r (record s { x = r }))
        else s)
    else if dest == 0x03
    then (if sour == 0x01
        then (let r = sub8 s.a s.y in set_flags r (record s { y = r }))
        else if sour == 0x02
        then (let r = sub8 s.x s.y in set_flags r (record s { y = r }))
        else s)
    else s
