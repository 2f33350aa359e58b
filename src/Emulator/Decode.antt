-- ===== src/Emulator/Decode.antt =====
-- The opcodes of JD1618.h, the labels of the two `switch` statements over the fetched byte, and the
-- number of clock cycles that the first of them grants.
use sector_os.Base.{ℕ, ◌==◌, if◌then◌else◌}

-- `zop` is the case 0x00 and `other` the default of the second switch.
pub data Op : Type 0 where
  mv jmp jz jnz je jne dec inc add sub cmp zop int cli sti nop hlt sde nde other : Op

unfoldable pub decode : ℕ → Op
decode n =
    if n == 0x30
    then mv
    else if n == 0x40
    then jmp
    else if n == 0x41
    then jz
    else if n == 0x42
    then jnz
    else if n == 0x43
    then je
    else if n == 0x44
    then jne
    else if n == 0x50
    then dec
    else if n == 0x51
    then inc
    else if n == 0x52
    then add
    else if n == 0x53
    then sub
    else if n == 0x54
    then cmp
    else if n == 0x00
    then zop
    else if n == 0x61
    then int
    else if n == 0x62
    then cli
    else if n == 0x63
    then sti
    else if n == 0x64
    then nop
    else if n == 0x65
    then hlt
    else if n == 0x67
    then sde
    else if n == 0x66
    then nde
    else other

unfoldable pub cost : Op → ℕ
cost mv = 5
cost add = 5
cost sub = 5
cost jmp = 4
cost int = 4
cost jz = 4
cost jnz = 4
cost je = 4
cost jne = 4
cost inc = 4
cost dec = 4
cost cmp = 4
cost sti = 3
cost cli = 3
cost nde = 3
cost sde = 3
cost hlt = 3
cost _ = 0
