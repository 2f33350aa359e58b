-- ===== src/Emulator/Jump.antt =====
-- The cases INS_JMP, INS_JZ, INS_JNZ, INS_JE and INS_JNE, after their operand is fetched.
use sector_os.Base.{ℕ, ◌==◌, if◌then◌else◌, u16}
use sector_os.Emulator.State.{Cpu, scale}

-- `PC = ADDRESS` or `PC = ADDRESS * OF`.
goto : ℕ → Cpu → Cpu
goto address s = record s { pc = u16 (scale s.of address) }

unfoldable pub jump : ℕ → Cpu → Cpu
unfolding goto
jump address s = goto address s

unfoldable pub jump_zero : ℕ → Cpu → Cpu
unfolding goto
jump_zero address s = if s.z == 1 then goto address s else s

unfoldable pub jump_not_zero : ℕ → Cpu → Cpu
unfolding goto
jump_not_zero address s = if s.z == 0 then goto address s else s

unfoldable pub jump_equal : ℕ → Cpu → Cpu
unfolding goto
jump_equal address s = if s.e == 1 then goto address s else s

unfoldable pub jump_not_equal : ℕ → Cpu → Cpu
unfolding goto
jump_not_equal address s = if s.e == 0 then goto address s else s
