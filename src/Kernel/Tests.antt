-- ===== src/Kernel/Tests.antt =====
-- The task manager, the descriptor table and the number texts at concrete inputs.
use sector_os.Base.{◌≡◌, ℕ, ◌≤◌, length, refl, some, [], ◌∷◌, arith, Ensures, ◌<◌, ◌+◌}
use sector_os.Kernel.Tasks.{Task, TaskManager, schedule, switch_task}
use sector_os.Kernel.Tasks.Fairness.{IsValid, IsScheduled, schedule_lem}
use sector_os.Kernel.Tasks.Rounds.{rounds, every_task_runs}
use sector_os.Kernel.Gdt.{segment_descriptor, segment_limit, covered, limit-descriptor}
use sector_os.Kernel.Tasks.Slots.{switch_task_lem, IsSwitched}
use sector_os.Kernel.IntText.{int_to_char_point}

abbrev shell : Task
shell = record { cpustate = 4096; task_name = 1; task_id = 1 }

abbrev clock : Task
clock = record { cpustate = 8192; task_name = 2; task_id = 2 }

abbrev manager : TaskManager
manager = record { tasks = shell ∷ clock ∷ []; current = some 1 }

manager-IsValid : IsValid manager
manager-IsValid = record { fits = omega arith; runs = λ c e. ground arith }

schedule_lem_example : Ensures (IsScheduled 5000 manager) (schedule 5000 manager)
schedule_lem_example = schedule_lem 5000 manager manager-IsValid (omega arith)

every_task_runs_example :
    (k : ℕ) × (1 ≤ k)
    × (k ≤ 2)
    × Ensures
        (λ m. IsValid m × (length m.tasks ≡ 2) × (m.current ≡ some 0))
        (rounds k (λ n. n) manager)
every_task_runs_example = every_task_runs manager 0 (λ n. n) manager-IsValid (omega arith)

limit-descriptor_example :
    (segment_limit (segment_descriptor 0 67108864 0x9a) ≡ covered 67108864)
    × (covered 67108864 ≤ 67108864)
    × (67108864 < covered 67108864 + 4096)
limit-descriptor_example = limit-descriptor 0 67108864 0x9a (omega arith)

switch_task_lem_example : IsSwitched 2 77 manager (switch_task 2 77 manager)
switch_task_lem_example = switch_task_lem 2 77 manager manager-IsValid

-- The text for 27 is the text for 26.
text_of_27 : int_to_char_point 27 ≡ "26"
unfolding int_to_char_point
text_of_27 = refl
