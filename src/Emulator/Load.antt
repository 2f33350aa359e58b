-- ===== src/Emulator/Load.antt =====
-- `LoadPRG`: the program is the memory behind the pointer `PRG`, none for the null pointer. The two
-- bytes in front are the load address, low byte first. The loop counter is a `uint16_t` and its
-- limit a `uint32_t`; on fuel, `none` says that the loop has not ended.
use sector_os.Base.{
  ℕ, zero, suc, ◌+◌, ◌*◌, Option, none, some, ◌==◌, if◌then◌else◌, ltb, u16, u32, sub32, bit_or,
  update,
}
use sector_os.Emulator.State.{Cpu, Ram}

pub record System : Type 0 where
  pub cpu : Cpu
  pub mem : Ram

-- `for (uint16_t i = ...; i < limit; i++) mem[i] = PRG[at++];`
unfoldable pub load_loop : ℕ → (ℕ → ℕ) → ℕ → ℕ → ℕ → Ram → Option Ram
load_loop zero prg limit i at ram = none
load_loop (suc fuel) prg limit i at ram =
    let rest = load_loop fuel prg limit (u16 (i + 1)) (u32 (at + 1)) (update ram i (prg at)) in
    if ltb i limit then rest else some ram

unfoldable pub load_address : (ℕ → ℕ) → ℕ
load_address prg = u16 (bit_or (prg 0) (prg 1 * 256))

unfoldable pub load_prg : ℕ → Option (ℕ → ℕ) → ℕ → System → Option System
load_prg fuel none size s = some s
load_prg fuel (some prg) size s =
    if size == 2
    then some s
    else (let address = load_address prg in
        elim (load_loop fuel prg (sub32 (u32 (address + size)) 2) address 2 s.mem) [
          | none ↦ none
          | some ram ↦ some (record { cpu = record s.cpu { pc = address }; mem = ram })
        ])
