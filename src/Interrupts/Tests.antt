-- ===== src/Interrupts/Tests.antt =====
-- System calls at a concrete input.
use sector_os.Base.{◌≡◌, refl, none, some, [], ◌∷◌, arith, ◌==◌, if◌then◌else◌}
use sector_os.Kernel.Tasks.{Task}
use sector_os.Interrupts.{InterruptHandlers, do_handle_interrupt}
use sector_os.Interrupts.Syscalls.{
  KernelState, new_syscall_handler, with_current, switched_to, switch_and_back,
}

abbrev first : Task
first = record { cpustate = 4096; task_name = 1; task_id = 1 }

abbrev second : Task
second = record { cpustate = 8192; task_name = 2; task_id = 2 }

-- The registers at 5000 ask for the second task, all others for the first.
abbrev system : KernelState
system = record {
  tasks = record { tasks = first ∷ (second ∷ []); current = some 0 };
  registers = λ esp. record { eax = 4; ebx = if esp == 5000 then 1 else 0; ecx = 0; edx = 0 };
}

abbrev handlers : InterruptHandlers KernelState
handlers = λ i. none

switch_and_back_example :
    (do_handle_interrupt (new_syscall_handler 0x20 0x80 handlers) 0xA0 5000 system
      ≡ some (8192, with_current 1 system, switched_to second))
    × (do_handle_interrupt
          (new_syscall_handler 0x20 0x80 handlers)
          0xA0
          6000
          (with_current 1 system)
        ≡ some (4096, system, switched_to first))
switch_and_back_example =
    switch_and_back handlers 5000 6000 1 0 system second first refl refl refl (omega arith)
      (refl, refl) (refl, refl)
