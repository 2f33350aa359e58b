-- ===== src/Emulator/Halting.antt =====
-- Which instructions end the loop of `ExecuteFromMemory`.
use sector_os.Base.{
  ℕ, ◌≡◌, refl, some, Always-some, Ensures-some, arith, ◌==◌, ◌≢◌, ◌↔◌, eq→==, ◌⊎◌, ne→==, not, sym,
  ◌<◌, ◌∙◌, u16, ◌+◌, true, ◌∷◌,
}
use sector_os.Emulator.State.{reset_cpu, read_in, max_mem, initialize_mem}
use sector_os.Emulator.Decode.{Op, zop, nop, other, decode, cost, hlt}
use sector_os.Emulator.Step.{
  Exec, step, halt_case, fetch_instruction, fetch_byte, execute, debug, print, zero_instruction,
}
use sector_os.Emulator.Run.{stopped, run, run_stop, run_round}
use sector_os.Emulator.Clock.{cycles_left, step-clock}
use sector_os.Emulator.Safety.{IsExec, step-IsExec}

abbrev pub Ends : ℕ → Type 0
Ends opcode = (decode opcode ≡ zop) ⊎ (decode opcode ≡ nop) ⊎ (decode opcode ≡ other)

cycles_left_iff : (op : Op) → (cycles_left op ≡ 0) ↔ ((op ≡ zop) ⊎ (op ≡ nop) ⊎ (op ≡ other))
cycles_left_iff op = ground arith

last_round : (t u : Exec) → run 1 t ≡ stopped u → t.clock ≡ 0
unfolding run
last_round t u h = ground arith

-- From a state with registers in their widths, bytes in memory and cycles left, the loop ends
-- behind the next instruction exactly when that is a zero byte, `NOP` or a byte that is no
-- opcode.
pub stops_iff :
    (s : Exec)
    → IsExec s
    → s.clock ≢ 0
    → ((t : Exec) × (run 2 s ≡ stopped t)) ↔ Ends (s.ram s.cpu.pc)
stops_iff s h on =
    let (t, e, ht) = Ensures-some IsExec (step s) (step-IsExec s h) in
    let left : t.clock ≡ cycles_left (decode (s.ram s.cpu.pc)) =
      Always-some _ (step s) e (step-clock s) in
    let there : run 2 s ≡ run 1 t = run_round 1 s t (ne→== _ _ on) e in
    let ends = cycles_left_iff (decode (s.ram s.cpu.pc)) in
    (
      λ (u, r). ends.0 (sym left ∙ last_round t u (sym there ∙ r)),
      λ last. (t, there ∙ run_stop 0 t (eq→== _ _ (left ∙ ends.1 last))),
    )

-- The machine that a halt leaves: registers and memory cleared, the offset register kept.
halted : Exec → Exec
unfolding halt_case
halted s = record (halt_case s) { clock = 3; enabled = not (s.cpu.i == 0) }

step_hlt : (s : Exec) → IsExec s → decode (s.ram s.cpu.pc) ≡ hlt → step s ≡ some (halted s)
unfolding step fetch_instruction fetch_byte execute halt_case debug reset_cpu halted cost
step_hlt s h e = ground (arith, read_in s.ram s.cpu.pc h.cpu_valid.pc_range)

-- A zero byte, with debugging off.
zeroed : Exec → Exec
zeroed s = record s {
  cpu = record s.cpu { pc = u16 (s.cpu.pc + 1) };
  clock = 0;
  enabled = not (s.cpu.i == 0);
  out = zero_instruction (u16 (s.cpu.pc + 1)) ∷ s.out;
}

step_zero :
    (s : Exec)
    → s.cpu.pc < max_mem
    → s.faulted ≡ true
    → s.ram s.cpu.pc ≡ 0
    → step s ≡ some (zeroed s)
unfolding step fetch_instruction fetch_byte execute debug zeroed cost decode print
step_zero s h f e = ground (arith, read_in s.ram s.cpu.pc h)

halted_cleared : (s : Exec) (p : ℕ) → p < max_mem → (halted s).ram p ≡ 0
unfolding halted initialize_mem
halted_cleared s p h = ground arith

-- From a state with registers in their widths, bytes in memory and cycles left, an `HLT` does not
-- itself end the loop. It resets the registers, but for the offset register, and clears the
-- memory; the zero byte that the loop then meets at 0xFFFC ends it, one round later.
hlt_stops :
    (s : Exec)
    → IsExec s
    → s.clock ≢ 0
    → decode (s.ram s.cpu.pc) ≡ hlt
    → (t : Exec) × (run 3 s ≡ stopped t)
      × (t.cpu ≡ record (reset_cpu s.cpu) { pc = 0xFFFD })
      × ((p : ℕ) → p < max_mem → t.ram p ≡ 0)
hlt_stops s h on e =
    let u : Exec = halted s in
    let first : run 3 s ≡ run 2 (halted s) = run_round 2 s _ (ne→== _ _ on) (step_hlt s h e) in
    let second : run 2 u ≡ run 1 (zeroed u) =
      unfold halted reset_cpu in
      run_round 1 u _ refl
        (step_zero u (omega arith) refl (halted_cleared s 0xFFFC (omega arith))) in
    let last : run 1 (zeroed u) ≡ stopped (zeroed u) =
      unfold zeroed in run_stop 0 (zeroed u) refl in
    (
      zeroed u,
      first ∙ second ∙ last,
      unfold zeroed halted reset_cpu in refl,
      unfold zeroed in halted_cleared s,
    )
