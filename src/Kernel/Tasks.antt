-- ===== src/Kernel/Tasks.antt =====
-- `TaskManager` of kernel/MultiTask.cpp. `numTasks` is the length of the list; `current` is
-- `currentTask`, none for -1. A task's saved `CPUState` is known by its address. `none` as a result
-- is a read through an entry of `tasks` that no task was stored in.
pub mod Fairness
pub mod Slots
pub mod Rounds
use sector_os.Kernel.IntText.{int_to_char_point}
use sector_os.Base.{
  codes, ℕ, ◌+◌, ◌%◌, Bool, true, false, Option, none, some, ◌>>=◌, List, [], ◌∷◌, ◌++◌, length,
  get_elem?, set, leb, ltb, ◌==◌, if◌then◌else◌, ◌||◌, u32,
}

pub record Task : Type 0 where
  pub cpustate : ℕ
  pub task_name : ℕ
  pub task_id : ℕ

pub record TaskManager : Type 0 where
  pub tasks : List Task
  pub current : Option ℕ

unfoldable pub new_manager : TaskManager
new_manager = record { tasks = []; current = none }

unfoldable pub add_task : Task → TaskManager → TaskManager × Bool
add_task task m =
    if leb 256 (length m.tasks)
    then (m, false)
    else (record m { tasks = m.tasks ++ task ∷ [] }, true)

-- `if(currentTask >= 0) tasks[currentTask]->cpustate = cpustate;`
save : Option ℕ → ℕ → List Task → Option (List Task)
save none state ts = some ts
save (some c) state ts = get_elem? ts c >>= λ t. some (set ts c (record t { cpustate = state }))

-- `if(++currentTask >= numTasks) currentTask %= numTasks;`
next_index : Option ℕ → ℕ → ℕ
next_index none n = if leb n 0 then 0 % n else 0
next_index (some c) n = if leb n (c + 1) then (c + 1) % n else c + 1

unfoldable pub schedule : ℕ → TaskManager → Option (ℕ × TaskManager)
unfolding save next_index
schedule state m =
    if leb (length m.tasks) 0
    then some (state, m)
    else (save m.current state m.tasks >>= λ ts.
        let i = next_index m.current (length m.tasks) in
        get_elem? ts i >>= λ t. some (t.cpustate, record { tasks = ts; current = some i }))

-- The argument is an `int`, as its 32 bits: those from 2^31 on are negative, and pass the test. The
-- texts are what is printed.
unfoldable pub switch_task : ℕ → ℕ → TaskManager → Option (ℕ × TaskManager × List (List ℕ))
switch_task tasknum state m =
    if leb 2147483648 tasknum || leb tasknum (length m.tasks)
    then (get_elem? m.tasks tasknum >>= λ t. some (
      t.cpustate,
      record m { current = some tasknum },
      codes "TaskManager::SwitchTask: Task switched to "
          ∷ (codes (int_to_char_point t.task_id) ∷ (codes ".\n" ∷ [])),
    ))
    else some (state, m, codes "TaskManager::SwitchTask: Task number out of range\n" ∷ [])
