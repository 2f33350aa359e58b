-- ===== src/Emulator/Run.antt =====
-- The loop of `ExecuteFromMemory`, on fuel: it runs while `ClockCycles` is not 0.
use sector_os.Base.{ℕ, zero, suc, ◌≡◌, true, false, none, some, [], ◌∷◌, ◌==◌}
use sector_os.Emulator.State.{Cpu, Ram}
use sector_os.Emulator.Step.{Exec, start_at, step}

-- `fault` is an access outside the memory, and `running` that the fuel ran out.
pub data Outcome : Type 0 where
  stopped running : Exec → Outcome
  fault : Outcome

unfoldable pub run : ℕ → Exec → Outcome
run zero s = running s
run (suc fuel) s = elim (s.clock == 0) [
  | true ↦ stopped s
  | false ↦ elim (step s) [ none ↦ fault | some t ↦ run fuel t ]
]

unfoldable pub start : Cpu → Ram → Exec
start cpu ram = record {
  cpu = cpu;
  ram = ram;
  clock = 1;
  faulted = true;
  enabled = false;
  interrupt = 0;
  out = start_at cpu.pc ∷ [];
}

unfoldable pub execute_from_memory : ℕ → Cpu → Ram → Outcome
unfolding run start
execute_from_memory fuel cpu ram = run fuel (start cpu ram)

pub run_stop : (fuel : ℕ) (s : Exec) → (s.clock == 0) ≡ true → run (suc fuel) s ≡ stopped s
unfolding run
run_stop fuel s h = rw (h, run)

pub run_round :
    (fuel : ℕ) (s t : Exec)
    → (s.clock == 0) ≡ false
    → step s ≡ some t
    → run (suc fuel) s ≡ run fuel t
unfolding run
run_round fuel s t h e = rw (h, run) (rw e)
