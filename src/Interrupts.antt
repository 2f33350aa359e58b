-- ===== src/Interrupts.antt =====
-- CPU/Interrupts.cpp: the table of handlers and the dispatch of an interrupt. A handler overrides the
-- virtual `HandleInterrupt`: a function of the state that the handlers share and the stack pointer,
-- which returns the stack pointer, the state and what it does besides. `none` is a fault of a handler.
pub mod Syscalls
mod Tests
use sector_os.Base.{
  ℕ, Bool, true, false, not, ◌&&◌, Option, none, some, ◌>>=◌, List, [], ◌∷◌, ◌++◌, leb, ltb, ◌==◌,
  if◌then◌else◌, update,
}

-- What is printed, written to a port, and called.
pub data Effect : Type 0 where
  unhandled : ℕ → Effect
  time : Effect
  end_of_interrupt : ℕ → Effect
  print_text : ℕ → Effect
  print_char : ℕ → Effect
  print_codes : List ℕ → Effect
  reboot : Effect
  write_sector : ℕ → ℕ → ℕ → Effect
  read_sector : ℕ → ℕ → Effect

abbrev pub InterruptHandler : Type 0 → Type 0
InterruptHandler S = S → ℕ → Option (ℕ × S × List Effect)

abbrev pub InterruptHandlers : Type 0 → Type 0
InterruptHandlers S = ℕ → Option (InterruptHandler S)

-- The constructor of a handler.
unfoldable pub add_interrupt_handler :
    {S : Type 0} → ℕ → InterruptHandler S → InterruptHandlers S → InterruptHandlers S
add_interrupt_handler interrupt h handlers = update handlers interrupt (some h)

unfoldable pub call_handler_of :
    {S : Type 0} → ℕ → ℕ → S → Option (InterruptHandler S) → Option (ℕ × S × List Effect)
call_handler_of interrupt esp s (some h) = h s esp
call_handler_of interrupt esp s none = some (
  esp,
  s,
  (if not (interrupt == 0x20) && not (interrupt == 0x25) && not (interrupt == 0x27)
      then unhandled interrupt ∷ []
      else if interrupt == 0x20
      then time ∷ []
      else []),
)

-- The two controllers, by the ports of their commands.
unfoldable pub acknowledge_interrupt : ℕ → List Effect
acknowledge_interrupt interrupt =
    if leb 0x20 interrupt && ltb interrupt 0x30
    then end_of_interrupt 0x20 ∷ (if leb 0x28 interrupt then end_of_interrupt 0xA0 ∷ [] else [])
    else []

-- `DoHandleInterrupt`
unfoldable pub do_handle_interrupt :
    {S : Type 0} → InterruptHandlers S → ℕ → ℕ → S → Option (ℕ × S × List Effect)
do_handle_interrupt handlers interrupt esp s = do
  (esp', s', es) ← call_handler_of interrupt esp s (handlers interrupt)
  some (esp', s', es ++ acknowledge_interrupt interrupt)
