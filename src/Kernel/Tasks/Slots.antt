-- ===== src/Kernel/Tasks/Slots.antt =====
-- Adding a task, and the system call that switches to one by its number.
use sector_os.Kernel.IntText.{int_to_char_point}
use sector_os.Base.{
  List, codes, ℕ, ◌≡◌, ◌≤◌, ◌<◌, ◌⊎◌, Bool, true, false, none, some, [], ◌∷◌, ◌++◌, length,
  get_elem?, arith, length-append, get_elem?-none, Option, dec_lt, get_elem?-some, inl, inr,
}
use sector_os.Kernel.Tasks.{Task, TaskManager, add_task, switch_task}
use sector_os.Kernel.Tasks.Fairness.{IsValid}

-- What `AddTask` promises: a full array refuses the task and changes nothing; otherwise the task
-- stands behind the others, which keep their places.
abbrev pub IsAdded : Task → TaskManager → TaskManager × Bool → Type 0
IsAdded t m r =
    ((r.1 ≡ false) × (256 ≤ length m.tasks) × (r.0 ≡ m))
    ⊎ ((r.1 ≡ true)
        × (length m.tasks < 256)
        × (r.0.tasks ≡ m.tasks ++ t ∷ [])
        × (r.0.current ≡ m.current))

add_task_lem : (t : Task) (m : TaskManager) → IsAdded t m (add_task t m)
unfolding add_task
add_task_lem t m = ground arith

-- From a valid manager, `AddTask` refuses the task with nothing changed when 256 are there, or
-- stores it behind the others; either way the manager is valid.
add_task-IsValid :
    (t : Task) (m : TaskManager) → IsValid m → IsValid (add_task t m).0 × IsAdded t m (add_task t m)
add_task-IsValid t m v =
    let lem = add_task_lem t m in
    (
      record {
        fits = ground (arith, lem, v.fits, length-append m.tasks (t ∷ []));
        runs = λ c e. ground (arith, lem, v.runs c, length-append m.tasks (t ∷ []));
      },
      lem,
    )

-- The three ways of the system call: the number names a task, whose registers are returned and which
-- becomes the current one; or it passes the test and names none; or it is refused.
abbrev pub IsSwitched : ℕ → ℕ → TaskManager → Option (ℕ × TaskManager × List (List ℕ)) → Type 0
IsSwitched tasknum state m r =
    ((t : Task) × (get_elem? m.tasks tasknum ≡ some t)
      × (r
          ≡ some (
            t.cpustate,
            record m { current = some tasknum },
            codes "TaskManager::SwitchTask: Task switched to "
                ∷ (codes (int_to_char_point t.task_id) ∷ (codes ".\n" ∷ [])),
          )))
    ⊎ (((tasknum ≡ length m.tasks) ⊎ (2147483648 ≤ tasknum)) × (r ≡ none))
    ⊎ ((length m.tasks < tasknum)
        × (tasknum < 2147483648)
        × (r ≡ some (state, m, codes "TaskManager::SwitchTask: Task number out of range\n" ∷ [])))

-- In a valid manager, the system call reads a slot that holds no task exactly for the number of tasks
-- itself and for a negative number. With a task's number it returns that task's registers, makes it
-- the current one and prints its ID; a larger number is refused with a message, and nothing changes.
pub switch_task_lem :
    (tasknum state : ℕ) (m : TaskManager)
    → IsValid m
    → IsSwitched tasknum state m (switch_task tasknum state m)
unfolding switch_task
switch_task_lem tasknum state m v = elim (dec_lt tasknum (length m.tasks)) [
  | yes inside ↦
      let (t, e) = get_elem?-some m.tasks tasknum inside in inl (t, e, ground (arith, v.fits))
  | no outside ↦
      let no_task = get_elem?-none m.tasks tasknum (omega arith) in
      inr (elim (dec_lt tasknum 2147483648) [
        | no negative ↦ inl (inr (omega arith), ground arith)
        | yes positive ↦ elim (dec_lt (length m.tasks) tasknum) [
          | yes above ↦ inr (above, positive, ground arith)
          | no at_end ↦ inl (inl (omega arith), ground arith)
        ]
      ])
]
