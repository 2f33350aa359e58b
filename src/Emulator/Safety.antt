-- ===== src/Emulator/Safety.antt =====
-- No instruction reads or writes outside the memory, whatever bytes it holds: every round of
-- `ExecuteFromMemory` ends, in a state with its registers in their widths.
use sector_os.Base.{
  ℕ, zero, suc, ◌<◌, Option, none, some, Ensures, Ensures-bind, arith, not, ◌==◌, Bool-cases, inl,
  inr, List, false, Bool, true, Ensures-some,
}
use sector_os.Emulator.State.{Cpu, IsCpu, IsRam, read_in, initialize_mem-IsRam, reset_cpu-IsCpu}
use sector_os.Emulator.Decode.{
  Op, mv, jmp, jz, jnz, je, jne, dec, inc, add, sub, cmp, zop, int, cli, sti, nop, hlt, sde, nde,
  other, decode,
}
use sector_os.Emulator.Valid.{
  decrement-IsCpu, increment-IsCpu, add_registers-IsCpu, sub_registers-IsCpu,
  compare_registers-IsCpu, jump-IsCpu, jump_zero-IsCpu, jump_not_zero-IsCpu, jump_equal-IsCpu,
  jump_not_equal-IsCpu, move-IsPair, IsPair,
}
use sector_os.Emulator.Step.{
  Exec, Event, fetch_byte, spend, unary, binary, move_case, print, interrupt_request, int_case,
  named, halt_case, execute, debug, fetch_instruction, step,
}
use sector_os.Emulator.Run.{Outcome, stopped, running, fault, run, run_stop, run_round}

pub record IsExec (s : Exec) : Type 0 where
  pub cpu_valid : IsCpu s.cpu
  pub ram_valid : IsRam s.ram
  pub interrupt_range : s.interrupt < 256

abbrev IsFetched : ℕ × Exec → Type 0
IsFetched p = (p.0 < 256) × IsExec p.1

fetch_byte-IsExec : (s : Exec) → IsExec s → Ensures IsFetched (fetch_byte s)
unfolding fetch_byte
fetch_byte-IsExec s h = rw (read_in s.ram s.cpu.pc h.cpu_valid.pc_range) (
  h.ram_valid s.cpu.pc,
  record {
    cpu_valid = ground (arith, h.cpu_valid);
    ram_valid = h.ram_valid;
    interrupt_range = h.interrupt_range;
  },
)

spend-IsExec : (s : Exec) → IsExec s → IsExec (spend s)
unfolding spend
spend-IsExec s h = record {
  cpu_valid = h.cpu_valid;
  ram_valid = h.ram_valid;
  interrupt_range = h.interrupt_range;
}

with_cpu-IsExec : (s : Exec) (c : Cpu) → IsExec s → IsCpu c → IsExec (spend (record s { cpu = c }))
with_cpu-IsExec s c h hc =
    spend-IsExec _
      (record { cpu_valid = hc; ram_valid = h.ram_valid; interrupt_range = h.interrupt_range })

unary-IsExec :
    (f : ℕ → Cpu → Cpu)
    → ((p : ℕ) (c : Cpu) → IsCpu c → IsCpu (f p c))
    → (s : Exec) → IsExec s
    → Ensures IsExec (unary f s)
unfolding unary
unary-IsExec f keep s h =
    Ensures-bind IsFetched IsExec (fetch_byte s) _ (fetch_byte-IsExec s h)
      λ (p, t) (_, ht). with_cpu-IsExec t (f p t.cpu) ht (keep p t.cpu ht.cpu_valid)

binary-IsExec :
    (f : ℕ → ℕ → Cpu → Cpu)
    → ((p r : ℕ) (c : Cpu) → IsCpu c → IsCpu (f p r c))
    → (s : Exec) → IsExec s
    → Ensures IsExec (binary f s)
unfolding binary
binary-IsExec f keep s h =
    Ensures-bind IsFetched IsExec (fetch_byte s) _ (fetch_byte-IsExec s h) λ (p, t) (_, ht).
      Ensures-bind IsFetched IsExec (fetch_byte t) _ (fetch_byte-IsExec t ht)
        λ (r, u) (_, hu). with_cpu-IsExec u (f p r u.cpu) hu (keep p r u.cpu hu.cpu_valid)

move_case-IsExec : (s : Exec) → IsExec s → Ensures IsExec (move_case s)
unfolding move_case
move_case-IsExec s h =
    Ensures-bind IsFetched IsExec (fetch_byte s) _ (fetch_byte-IsExec s h) λ (p, t) (hp, ht).
      Ensures-bind IsFetched IsExec (fetch_byte t) _ (fetch_byte-IsExec t ht) λ (r, u) (hr, hu).
        Ensures-bind IsPair IsExec _ _ (move-IsPair p r u.cpu u.ram hp hr hu.cpu_valid hu.ram_valid)
          λ (c, m) (hc, hm).
            spend-IsExec _
              (record { cpu_valid = hc; ram_valid = hm; interrupt_range = hu.interrupt_range })

abbrev IsNamed : Exec × Option Op → Type 0
IsNamed p = IsExec p.0

named-IsNamed : (op : Op) (m : Option Exec) → Ensures IsExec m → Ensures IsNamed (named op m)
unfolding named
named-IsNamed op (some s) h = h
named-IsNamed op none h = h

interrupt_request-IsExec : (n : ℕ) (s : Exec) → IsExec s → IsExec (interrupt_request n s)
unfolding interrupt_request
interrupt_request-IsExec n s h = ground (arith, h)

int_case-IsNamed : (s : Exec) → IsExec s → Ensures IsNamed (int_case s)
unfolding int_case
int_case-IsNamed s h =
    Ensures-bind IsFetched IsNamed (fetch_byte s) _ (fetch_byte-IsExec s h) λ (n, t) (hn, ht).
      let u : Exec = record t { interrupt = n } in
      let hu : IsExec u = record {
        cpu_valid = ht.cpu_valid;
        ram_valid = ht.ram_valid;
        interrupt_range = hn;
      } in
      ground (arith, interrupt_request-IsExec n u hu, hu)

halt_case-IsExec : (s : Exec) → IsExec s → IsExec (halt_case s)
unfolding halt_case
halt_case-IsExec s h = record {
  cpu_valid = reset_cpu-IsCpu s.cpu h.cpu_valid;
  ram_valid = initialize_mem-IsRam s.ram h.ram_valid;
  interrupt_range = h.interrupt_range;
}

same-IsExec :
    (s : Exec) (f : ℕ) (o : List Event) (b : Bool)
    → f < 2
    → IsExec s
    → IsExec (record s { cpu = record s.cpu { i = f }; out = o; faulted = b })
same-IsExec s f o b hf h = record {
  cpu_valid = ground (arith, h.cpu_valid);
  ram_valid = h.ram_valid;
  interrupt_range = h.interrupt_range;
}

printed-IsExec :
    (s : Exec) (o : List Event) (b : Bool) → IsExec s → IsExec (record s { out = o; faulted = b })
printed-IsExec s o b h = record {
  cpu_valid = h.cpu_valid;
  ram_valid = h.ram_valid;
  interrupt_range = h.interrupt_range;
}

execute-IsNamed : (op : Op) (n : ℕ) (s : Exec) → IsExec s → Ensures IsNamed (execute op n s)
unfolding execute print
execute-IsNamed mv n s h = named-IsNamed mv _ (move_case-IsExec s h)
execute-IsNamed jmp n s h = named-IsNamed jmp _ (unary-IsExec _ jump-IsCpu s h)
execute-IsNamed jz n s h = named-IsNamed jz _ (unary-IsExec _ jump_zero-IsCpu s h)
execute-IsNamed jnz n s h = named-IsNamed jnz _ (unary-IsExec _ jump_not_zero-IsCpu s h)
execute-IsNamed je n s h = named-IsNamed je _ (unary-IsExec _ jump_equal-IsCpu s h)
execute-IsNamed jne n s h = named-IsNamed jne _ (unary-IsExec _ jump_not_equal-IsCpu s h)
execute-IsNamed dec n s h = named-IsNamed dec _ (unary-IsExec _ decrement-IsCpu s h)
execute-IsNamed inc n s h = named-IsNamed inc _ (unary-IsExec _ increment-IsCpu s h)
execute-IsNamed add n s h = named-IsNamed add _ (binary-IsExec _ add_registers-IsCpu s h)
execute-IsNamed sub n s h = named-IsNamed sub _ (binary-IsExec _ sub_registers-IsCpu s h)
execute-IsNamed cmp n s h = named-IsNamed cmp _ (binary-IsExec _ compare_registers-IsCpu s h)
execute-IsNamed zop n s h = printed-IsExec s _ s.faulted h
execute-IsNamed int n s h = int_case-IsNamed s h
execute-IsNamed cli n s h = same-IsExec s 0 s.out s.faulted (omega arith) h
execute-IsNamed sti n s h = same-IsExec s 1 s.out s.faulted (omega arith) h
execute-IsNamed nop n s h = h
execute-IsNamed hlt n s h = halt_case-IsExec s h
execute-IsNamed sde n s h = printed-IsExec s s.out false h
execute-IsNamed nde n s h = printed-IsExec s _ true h
execute-IsNamed other n s h = printed-IsExec s _ s.faulted h

debug-IsExec : (n : ℕ) (r : Exec × Option Op) → IsNamed r → IsExec (debug n r)
unfolding debug
debug-IsExec n (s, name) h = ground (arith, h, printed-IsExec s _ s.faulted h)

fetch_instruction-IsFetched : (s : Exec) → IsExec s → Ensures IsFetched (fetch_instruction s)
unfolding fetch_instruction
fetch_instruction-IsFetched s h =
    Ensures-bind IsFetched IsFetched (fetch_byte sampled) _ (fetch_byte-IsExec sampled hs)
      λ (n, t) (hn, ht). (
        hn,
        record {
          cpu_valid = ht.cpu_valid;
          ram_valid = ht.ram_valid;
          interrupt_range = ht.interrupt_range;
        },
      )
  where
    sampled : Exec
    sampled = record s { enabled = not (s.cpu.i == 0); clock = 1 }

    hs : IsExec sampled
    hs = record {
      cpu_valid = h.cpu_valid;
      ram_valid = h.ram_valid;
      interrupt_range = h.interrupt_range;
    }

-- From any state with registers in their widths and bytes in memory, one round of the loop touches
-- no address outside the memory, and ends in such a state.
pub step-IsExec : (s : Exec) → IsExec s → Ensures IsExec (step s)
unfolding step
step-IsExec s h =
    Ensures-bind IsFetched IsExec (fetch_instruction s) _ (fetch_instruction-IsFetched s h)
      λ (n, t) (_, ht).
        Ensures-bind IsNamed IsExec (execute (decode n) n t) _ (execute-IsNamed (decode n) n t ht)
          λ r hr. debug-IsExec n r hr

abbrev pub IsSound : Outcome → Type 0
IsSound (stopped s) = IsExec s
IsSound (running s) = IsExec s
IsSound fault = ⊥

-- However long the loop of `ExecuteFromMemory` runs from a state with registers in their widths
-- and bytes in memory, it never touches an address outside the memory, and the state in which it
-- stops, or is when the fuel is spent, is again such.
pub run-IsSound : (fuel : ℕ) (s : Exec) → IsExec s → IsSound (run fuel s)
unfolding run
run-IsSound zero s h = h
run-IsSound (suc fuel) s h =
    let (t, e, ht) = Ensures-some IsExec (step s) (step-IsExec s h) in
    let rest : IsSound (run fuel t) = run-IsSound fuel t ht in
    elim (Bool-cases (s.clock == 0)) [
      | inl done ↦ rw (run_stop fuel s done) h
      | inr more ↦ rw (run_round fuel s t more e) rest
    ]
