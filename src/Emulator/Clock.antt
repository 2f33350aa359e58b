-- ===== src/Emulator/Clock.antt =====
-- How many clock cycles an instruction leaves, and so whether the loop goes on.
use sector_os.Base.{ℕ, ◌≡◌, Option, none, some, Always, Always-bind, arith, sub32, suc, ◌∙◌, ◌<◌}
use sector_os.Emulator.State.{Cpu, read}
use sector_os.Emulator.Decode.{
  Op, mv, jmp, jz, jnz, je, jne, dec, inc, add, sub, cmp, zop, int, cli, sti, nop, hlt, sde, nde,
  other, decode, cost,
}
use sector_os.Emulator.Move.{move}
use sector_os.Emulator.Step.{
  Exec, fetch_byte, spend, unary, binary, move_case, print, interrupt_request, int_case, named,
  halt_case, execute, debug, fetch_instruction, step,
}

-- The cycles left at the end of a round. None are left behind `nop`, a zero and an unknown byte.
abbrev pub cycles_left : Op → ℕ
cycles_left zop = 0
cycles_left nop = 0
cycles_left other = 0
cycles_left cmp = 1
cycles_left mv = 2
cycles_left add = 2
cycles_left sub = 2
cycles_left int = 3
cycles_left cli = 3
cycles_left sti = 3
cycles_left hlt = 3
cycles_left sde = 3
cycles_left nde = 3
cycles_left _ = 2

abbrev ClockIs : ℕ → Exec → Type 0
ClockIs k s = s.clock ≡ k

abbrev FetchedClockIs : ℕ → ℕ × Exec → Type 0
FetchedClockIs k p = p.1.clock ≡ k

fetch_byte-clock : (s : Exec) → Always (FetchedClockIs (sub32 s.clock 1)) (fetch_byte s)
unfolding fetch_byte read
fetch_byte-clock s = ground arith

unary-clock : (f : ℕ → Cpu → Cpu) (s : Exec) → s.clock ≡ 4 → Always (ClockIs 2) (unary f s)
unfolding unary spend
unary-clock f s h =
    Always-bind _ (ClockIs 2) (fetch_byte s) _ (fetch_byte-clock s) (λ (p, t) e. omega arith)

binary-clock :
    (f : ℕ → ℕ → Cpu → Cpu) (s : Exec) (k : ℕ)
    → s.clock ≡ suc (suc (suc k))
    → k < 9
    → Always (ClockIs k) (binary f s)
unfolding binary spend
binary-clock f s k h small =
    Always-bind _ (ClockIs k) (fetch_byte s) _ (fetch_byte-clock s) λ (p, t) e.
      Always-bind _ (ClockIs k) (fetch_byte t) _ (fetch_byte-clock t) (λ (r, u) e'. omega arith)

move_case-clock : (s : Exec) → s.clock ≡ 5 → Always (ClockIs 2) (move_case s)
unfolding move_case spend
move_case-clock s h = Always-bind _ (ClockIs 2) (fetch_byte s) _ (fetch_byte-clock s) λ (p, t) e.
    Always-bind _ (ClockIs 2) (fetch_byte t) _ (fetch_byte-clock t) λ (r, u) e'.
      Always-bind (λ _. Unit {0}) (ClockIs 2) (move p r u.cpu u.ram) _ (anything _)
        (λ (c, m) _. omega arith)
  where
    anything : {A : Type 0} (m : Option A) → Always (λ _. Unit {0}) m
    anything none = tt
    anything (some a) = tt

abbrev NamedClockIs : ℕ → Exec × Option Op → Type 0
NamedClockIs k p = p.0.clock ≡ k

named-clock :
    (k : ℕ) (op : Op) (m : Option Exec)
    → Always (ClockIs k) m
    → Always (NamedClockIs k) (named op m)
unfolding named
named-clock k op none h = tt
named-clock k op (some s) h = h

interrupt_request-clock : (n : ℕ) (s : Exec) → (interrupt_request n s).clock ≡ s.clock
unfolding interrupt_request
interrupt_request-clock n s = ground arith

int_case-clock : (s : Exec) → s.clock ≡ 4 → Always (NamedClockIs 3) (int_case s)
unfolding int_case
int_case-clock s h =
    Always-bind _ (NamedClockIs 3) (fetch_byte s) _ (fetch_byte-clock s)
      λ (n, t) e. ground (arith, interrupt_request-clock n (record t { interrupt = n }))

execute-clock :
    (op : Op) (n : ℕ) (s : Exec)
    → s.clock ≡ cost op
    → Always (NamedClockIs (cycles_left op)) (execute op n s)
unfolding execute cost print halt_case
execute-clock mv n s h = named-clock 2 mv _ (move_case-clock s h)
execute-clock jmp n s h = named-clock 2 jmp _ (unary-clock _ s h)
execute-clock jz n s h = named-clock 2 jz _ (unary-clock _ s h)
execute-clock jnz n s h = named-clock 2 jnz _ (unary-clock _ s h)
execute-clock je n s h = named-clock 2 je _ (unary-clock _ s h)
execute-clock jne n s h = named-clock 2 jne _ (unary-clock _ s h)
execute-clock dec n s h = named-clock 2 dec _ (unary-clock _ s h)
execute-clock inc n s h = named-clock 2 inc _ (unary-clock _ s h)
execute-clock add n s h = named-clock 2 add _ (binary-clock _ s 2 h (omega arith))
execute-clock sub n s h = named-clock 2 sub _ (binary-clock _ s 2 h (omega arith))
execute-clock cmp n s h = named-clock 1 cmp _ (binary-clock _ s 1 h (omega arith))
execute-clock int n s h = int_case-clock s h
execute-clock _ n s h = h

debug-clock : (n : ℕ) (r : Exec × Option Op) → (debug n r).clock ≡ r.0.clock
unfolding debug
debug-clock n (s, name) = ground arith

-- The opcode is the byte at the program counter, and its case is granted its cycles.
abbrev pub IsInstruction : Exec → ℕ × Exec → Type 0
IsInstruction s p = (p.0 ≡ s.ram s.cpu.pc) × (p.1.clock ≡ cost (decode (s.ram s.cpu.pc)))

pub fetch_instruction-IsInstruction : (s : Exec) → Always (IsInstruction s) (fetch_instruction s)
unfolding fetch_instruction fetch_byte read
fetch_instruction-IsInstruction s = ground arith

-- A round leaves the cycles of the instruction at the program counter.
pub step-clock : (s : Exec) → Always (ClockIs (cycles_left (decode (s.ram s.cpu.pc)))) (step s)
unfolding step
step-clock s =
    Always-bind (IsInstruction s) Left (fetch_instruction s) _ (fetch_instruction-IsInstruction s)
      λ (n, t) (e, c).
        Always-bind (NamedClockIs left) Left (execute (decode n) n t) _
          (rw e (execute-clock (decode (s.ram s.cpu.pc)) (s.ram s.cpu.pc) t c))
          (λ r h. debug-clock n r ∙ h)
  where
    left : ℕ
    left = cycles_left (decode (s.ram s.cpu.pc))

    Left : Exec → Type 0
    Left = ClockIs left
