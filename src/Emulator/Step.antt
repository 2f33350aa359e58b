-- ===== src/Emulator/Step.antt =====
-- One round of the loop of `ExecuteFromMemory`: fetch, grant the cycles, run the case, and print
-- the registers while debugging is on. What is printed is the list `out`, newest first; `asm("hlt")`
-- has no effect on the emulated machine.
use sector_os.Base.{
  ℕ, ◌+◌, Bool, true, false, Option, none, some, ◌>>=◌, List, ◌∷◌, ◌==◌, if◌then◌else◌, u16, sub32,
  not,
}
use sector_os.Emulator.State.{Cpu, Ram, read, initialize_mem, reset_cpu}
use sector_os.Emulator.Decode.{
  Op, mv, jmp, jz, jnz, je, jne, dec, inc, add, sub, cmp, zop, int, cli, sti, nop, hlt, sde, nde,
  other, decode, cost,
}
use sector_os.Emulator.Move.{move}
use sector_os.Emulator.Jump.{jump, jump_zero, jump_not_zero, jump_equal, jump_not_equal}
use sector_os.Emulator.Arith.{decrement, increment, add_registers, sub_registers}
use sector_os.Emulator.Compare.{compare_registers}

-- The text printed. `insname` is the operation whose mnemonic it is, `other` for "IOC", or none for
-- the null pointer; a trace shows the interrupt number only behind "INT".
pub data Event : Type 0 where
  start_at : ℕ → Event
  zero_instruction : ℕ → Event
  not_implemented : ℕ → Event
  print_char : ℕ → Event
  print_status : Cpu → Event
  clear_screen : Event
  trace : ℕ → Option Op → Option ℕ → Cpu → Event

-- The locals of `ExecuteFromMemory` with the two objects that it changes. `faulted` is
-- `isFaulted`, which is false while debugging is on; `enabled` is `isInterruptsenabled`.
pub record Exec : Type 0 where
  pub cpu : Cpu
  pub ram : Ram
  pub clock : ℕ
  pub faulted : Bool
  pub enabled : Bool
  pub interrupt : ℕ
  pub out : List Event

unfoldable pub fetch_byte : Exec → Option (ℕ × Exec)
fetch_byte s = do
  v ← read s.ram s.cpu.pc
  some (v, record s { cpu = record s.cpu { pc = u16 (s.cpu.pc + 1) }; clock = sub32 s.clock 1 })

-- `ClockCycles--` at the end of a case.
unfoldable pub spend : Exec → Exec
spend s = record s { clock = sub32 s.clock 1 }

-- A case that changes registers only, behind one operand or two.
unfoldable pub unary : (ℕ → Cpu → Cpu) → Exec → Option Exec
unary f s = do (p, t) ← fetch_byte s; some (spend (record t { cpu = f p t.cpu }))

unfoldable pub binary : (ℕ → ℕ → Cpu → Cpu) → Exec → Option Exec
binary f s = do
  (p, t) ← fetch_byte s
  (r, u) ← fetch_byte t
  some (spend (record u { cpu = f p r u.cpu }))

unfoldable pub move_case : Exec → Option Exec
move_case s = do
  (destination, t) ← fetch_byte s
  (source, u) ← fetch_byte t
  (cpu', ram') ← move destination source u.cpu u.ram
  some (spend (record u { cpu = cpu'; ram = ram' }))

unfoldable pub print : Event → Exec → Exec
print o s = record s { out = o ∷ s.out }

-- The inner `switch` of INS_INT; INT_GKP has no case in it.
unfoldable pub interrupt_request : ℕ → Exec → Exec
unfolding print
interrupt_request n s =
    if n == 0x10
    then print (print_char s.cpu.y) (record s { faulted = true })
    else if n == 0x11
    then print (print_status s.cpu) s
    else if n == 0x13
    then print clear_screen s
    else s

unfoldable pub int_case : Exec → Option (Exec × Option Op)
int_case s = do
  (n, t) ← fetch_byte s
  let u = record t { interrupt = n }
  some (if u.enabled then (interrupt_request n u, some int) else (u, none))

unfoldable pub named : Op → Option Exec → Option (Exec × Option Op)
named op m = do t ← m; some (t, some op)

unfoldable pub halt_case : Exec → Exec
halt_case s = record s { faulted = true; cpu = reset_cpu s.cpu; ram = initialize_mem s.ram }

-- The second `switch`; INS_NDE falls through to the default.
unfoldable pub execute : Op → ℕ → Exec → Option (Exec × Option Op)
unfolding named
execute mv instruction s = named mv (move_case s)
execute jmp instruction s = named jmp (unary jump s)
execute jz instruction s = named jz (unary jump_zero s)
execute jnz instruction s = named jnz (unary jump_not_zero s)
execute je instruction s = named je (unary jump_equal s)
execute jne instruction s = named jne (unary jump_not_equal s)
execute dec instruction s = named dec (unary decrement s)
execute inc instruction s = named inc (unary increment s)
execute add instruction s = named add (binary add_registers s)
execute sub instruction s = named sub (binary sub_registers s)
execute cmp instruction s = named cmp (binary compare_registers s)
execute zop instruction s = some (print (zero_instruction s.cpu.pc) s, some zop)
execute int instruction s = int_case s
execute cli instruction s = some (record s { cpu = record s.cpu { i = 0 } }, some cli)
execute sti instruction s = some (record s { cpu = record s.cpu { i = 1 } }, some sti)
execute nop instruction s = some (s, some nop)
execute hlt instruction s = some (halt_case s, none)
execute sde instruction s = some (record s { faulted = false }, some sde)
execute nde instruction s =
    some (print (not_implemented instruction) (record s { faulted = true }), some other)
execute other instruction s = some (print (not_implemented instruction) s, some other)

unfoldable pub shown_interrupt : Option Op → ℕ → Option ℕ
shown_interrupt (some int) n = some n
shown_interrupt _ n = none

unfoldable pub debug : ℕ → Exec × Option Op → Exec
unfolding print shown_interrupt
debug instruction (s, insname) =
    if s.faulted
    then s
    else print (trace instruction insname (shown_interrupt insname s.interrupt) s.cpu) s

-- The round up to the second `switch`: the interrupt flag is sampled, the opcode fetched, and the
-- cycles of its case granted.
unfoldable pub fetch_instruction : Exec → Option (ℕ × Exec)
fetch_instruction s = do
  (instruction, t) ← fetch_byte (record s { enabled = not (s.cpu.i == 0); clock = 1 })
  some (instruction, record t { clock = cost (decode instruction) })

unfoldable pub step : Exec → Option Exec
step s = do
  (instruction, t) ← fetch_instruction s
  r ← execute (decode instruction) instruction t
  some (debug instruction r)
