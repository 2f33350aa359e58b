-- ===== src/Emulator/Tests.antt =====
-- Runs of the emulator, and its theorems at concrete machines.
use sector_os.Base.{
  ℕ, zero, suc, ◌≡◌, ◌<◌, refl, ◌↔◌, true, false, some, List, [], ◌∷◌, get_or, arith, Ensures,
}
use sector_os.Emulator.State.{Cpu, Ram, IsCpu, IsRam, read, scale}
use sector_os.Emulator.Decode.{decode, cost}
use sector_os.Emulator.Jump.{jump_not_zero}
use sector_os.Emulator.Arith.{set_flags, decrement}
use sector_os.Emulator.Step.{
  Exec, fetch_byte, spend, unary, execute, debug, fetch_instruction, step,
}
use sector_os.Emulator.Run.{Outcome, stopped, run}
use sector_os.Emulator.Load.{System, load_prg, load_address}
use sector_os.Emulator.Safety.{IsExec, step-IsExec, IsSound, run-IsSound}
use sector_os.Emulator.Halting.{Ends, stops_iff}
use sector_os.Emulator.Loading.{loaded, load_prg-loaded}

abbrev program : List ℕ → Ram
program bytes p = get_or bytes p 0

AllBytes : List ℕ → Type 0
AllBytes [] = Unit {0}
AllBytes (b ∷ bs) = (b < 256) × AllBytes bs

program-IsRam : (bytes : List ℕ) → AllBytes bytes → IsRam (program bytes)
unfolding AllBytes
program-IsRam [] h p = omega arith
program-IsRam (b ∷ bs) h zero = h.0
program-IsRam (b ∷ bs) h (suc p) = program-IsRam bs h.1 p

abbrev cpu : Cpu
cpu = record {
  pc = 0;
  sp = 0;
  a = 7;
  x = 40;
  y = 9;
  q = 2;
  k = 1;
  of = 0;
  c = 0;
  e = 1;
  z = 0;
  i = 0;
  d = 0;
  b = 0;
  v = 0;
  n = 0;
}

cpu-IsCpu : IsCpu cpu
cpu-IsCpu = omega arith

abbrev machine : List ℕ → Exec
machine bytes = record {
  cpu = cpu;
  ram = program bytes;
  clock = 1;
  faulted = true;
  enabled = false;
  interrupt = 0;
  out = [];
}

machine-IsExec : (bytes : List ℕ) → AllBytes bytes → IsExec (machine bytes)
machine-IsExec bytes h = record {
  cpu_valid = cpu-IsCpu;
  ram_valid = program-IsRam bytes h;
  interrupt_range = omega arith;
}

-- loop: DEC Q; JNZ loop; then a zero byte.
abbrev countdown : List ℕ
countdown = 0x50 ∷ 0x04 ∷ 0x42 ∷ 0x00 ∷ []

countdown-AllBytes : AllBytes countdown
unfolding AllBytes
countdown-AllBytes = omega arith

abbrev q_of : Outcome → ℕ
q_of (stopped s) = s.cpu.q
q_of _ = 99

countdown_runs : q_of (run 9 (machine countdown)) ≡ 0
unfolding run step decode fetch_instruction fetch_byte read execute unary debug spend cost decrement
    set_flags jump_not_zero scale
countdown_runs = refl

step-IsExec_example : Ensures IsExec (step (machine countdown))
step-IsExec_example = step-IsExec (machine countdown) (machine-IsExec countdown countdown-AllBytes)

run-IsSound_example : IsSound (run 9 (machine countdown))
run-IsSound_example =
    run-IsSound 9 (machine countdown) (machine-IsExec countdown countdown-AllBytes)

stops_iff_example : ((t : Exec) × (run 2 (machine countdown) ≡ stopped t)) ↔ Ends 0x50
stops_iff_example =
    stops_iff (machine countdown) (machine-IsExec countdown countdown-AllBytes) (omega arith)

-- Three bytes for address 0x0200.
abbrev image : ℕ → ℕ
image = program (0x00 ∷ 0x02 ∷ 0x51 ∷ 0x01 ∷ 0x65 ∷ [])

abbrev system : System
system = record { cpu = cpu; mem = program [] }

load_prg-loaded_example : load_prg 4 (some image) 5 system ≡ some (loaded image 3 system)
unfolding load_address
load_prg-loaded_example = load_prg-loaded image 3 4 system (omega arith) (omega arith) (omega arith)
