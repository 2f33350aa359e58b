-- ===== src/Interrupts/Syscalls.antt =====
-- CPU/syscall.cpp: the handler of the system calls, over the tasks and the registers that a stack pointer
-- stands for.
use sector_os.Kernel.IntText.{int_to_char_point}
use sector_os.Base.{
  ◌+◌, codes, Option, List, sym, ap, ◌∙◌, map, ℕ, ◌%◌, get_elem?-lt, ◌≡◌, ◌<◌, refl, true, ◌||◌,
  some, ◌>>=◌, [], ◌∷◌, length, get_elem?, leb, ◌==◌, if◌then◌else◌, arith,
}
use sector_os.Kernel.Tasks.{Task, TaskManager, switch_task}
use sector_os.Interrupts.{
  print_text, print_char, reboot, write_sector, read_sector, InterruptHandler, InterruptHandlers,
  Effect, print_codes, add_interrupt_handler, call_handler_of, acknowledge_interrupt,
  do_handle_interrupt,
}

pub record CpuState : Type 0 where
  pub eax : ℕ
  pub ebx : ℕ
  pub ecx : ℕ
  pub edx : ℕ

pub record KernelState : Type 0 where
  pub tasks : TaskManager
  pub registers : ℕ → CpuState

-- `HandleInterrupt` of the handler of system calls.
unfoldable pub handle_syscall : InterruptHandler KernelState
handle_syscall s esp =
    let cpu = s.registers esp in
    let switched =
      (switch_task cpu.ebx esp s.tasks >>= λ (e, m, texts).
      some (e, record s { tasks = m }, map print_codes texts)) in
    if cpu.eax == 1
    then some (esp, s, print_text cpu.ebx ∷ [])
    else if cpu.eax == 2
    then some (esp, s, print_char (cpu.ebx % 256) ∷ [])
    else if cpu.eax == 3
    then some (esp, s, reboot ∷ [])
    else if cpu.eax == 4
    then switched
    else if cpu.eax == 5
    then some (esp, s, write_sector cpu.ebx cpu.ecx cpu.edx ∷ [])
    else if cpu.eax == 6
    then some (esp, s, read_sector cpu.ebx cpu.ecx ∷ [])
    else some (esp, s, [])

-- The constructor of `SyscallHandler`: the handler stands under the number of the interrupt plus the
-- manager's offset for hardware interrupts, in a byte.
unfoldable pub new_syscall_handler :
    ℕ → ℕ → InterruptHandlers KernelState → InterruptHandlers KernelState
unfolding add_interrupt_handler
new_syscall_handler offset interrupt_number handlers =
    add_interrupt_handler ((interrupt_number + offset) % 256) handle_syscall handlers

-- What is printed when a task becomes the current one.
abbrev pub switched_to : Task → List Effect
switched_to t =
    print_codes (codes "TaskManager::SwitchTask: Task switched to ")
    ∷ (print_codes (codes (int_to_char_point t.task_id)) ∷ (print_codes (codes ".\n") ∷ []))

abbrev pub with_current : ℕ → KernelState → KernelState
with_current i s = record s { tasks = record s.tasks { current = some i } }

switched :
    (handlers : InterruptHandlers KernelState) (esp : ℕ) (s : KernelState) (t : Task)
    → (s.registers esp).eax ≡ 4
    → length s.tasks.tasks < 2147483648
    → get_elem? s.tasks.tasks (s.registers esp).ebx ≡ some t
    → do_handle_interrupt (new_syscall_handler 0x20 0x80 handlers) 0xA0 esp s
      ≡ some (t.cpustate, with_current (s.registers esp).ebx s, switched_to t)
unfolding do_handle_interrupt call_handler_of handle_syscall switch_task acknowledge_interrupt
    new_syscall_handler add_interrupt_handler
switched handlers esp s t four few found =
    let inside : (s.registers esp).ebx < length s.tasks.tasks =
      get_elem?-lt s.tasks.tasks (s.registers esp).ebx found in
    let passes : (leb 2147483648 (s.registers esp).ebx
          || leb (s.registers esp).ebx (length s.tasks.tasks))
        ≡ true =
      ground arith in
    rw (four, passes, found) refl

-- Two system calls 4, with the handler where the kernel puts it: made for number 0x80 and the offset
-- 0x20, it gets the interrupt that arrives as 0xA0. The first switches from the current task `c` to
-- the task `i`, the second back to `c`. The second returns the registers that were saved with `c`
-- before both: those that `c` was interrupted with at the first, at `esp`, are saved nowhere, and the
-- state is the one before both. Each switch prints the task's ID. There are less than 2^31 tasks.
pub switch_and_back :
    (handlers : InterruptHandlers KernelState) (esp esp' i c : ℕ) (s : KernelState) (t u : Task)
    → s.tasks.current ≡ some c
    → get_elem? s.tasks.tasks i ≡ some t
    → get_elem? s.tasks.tasks c ≡ some u
    → length s.tasks.tasks < 2147483648
    → ((s.registers esp).eax ≡ 4) × ((s.registers esp).ebx ≡ i)
    → ((s.registers esp').eax ≡ 4) × ((s.registers esp').ebx ≡ c)
    → (do_handle_interrupt (new_syscall_handler 0x20 0x80 handlers) 0xA0 esp s
        ≡ some (t.cpustate, with_current i s, switched_to t))
      × (do_handle_interrupt (new_syscall_handler 0x20 0x80 handlers) 0xA0 esp' (with_current i s)
          ≡ some (u.cpustate, s, switched_to u))
switch_and_back handlers esp esp' i c s t u runs found found' few call call' =
    let at_i : get_elem? s.tasks.tasks (s.registers esp).ebx ≡ some t = rw call.1 found in
    let at_c : get_elem? s.tasks.tasks (s.registers esp').ebx ≡ some u = rw call'.1 found' in
    let first = switched handlers esp s t call.0 few at_i in
    let second = switched handlers esp' (with_current i s) u call'.0 few at_c in
    let same : with_current c s ≡ s =
      ap (λ (o : Option ℕ). record s { tasks = record s.tasks { current = o } }) (sym runs) in
    (
      rw call.1 at first,
      second ∙ rw call'.1 (ap (λ (q : KernelState). some (u.cpustate, q, switched_to u)) same),
    )
