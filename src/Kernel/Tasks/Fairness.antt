-- ===== src/Kernel/Tasks/Fairness.antt =====
-- Round robin: who runs next, and that nobody's registers are lost.
use native.Mathlib.Nat.{mod_self}
use sector_os.Base.{
  ℕ, ◌+◌, ◌%◌, ◌≡◌, ◌≤◌, ◌<◌, refl, Option, none, some, ◌>>=◌, List, length, get_elem?, set, ◌==◌,
  if◌then◌else◌, arith, Ensures, length-set, get_elem?-some, get_elem?-set_self, get_elem?-set_ne,
  some-injective, ap, gt→leb, sym, Ensures-bind, ◌∙◌, eq→==, ne→==, ℕ_discrete, Ensures-some,
}
use sector_os.Kernel.Tasks.{Task, TaskManager, save, next_index, schedule}

-- The current task exists, and the array is not overrun.
pub record IsValid (m : TaskManager) : Type 0 where
  pub fits : length m.tasks ≤ 256
  pub runs : (c : ℕ) → m.current ≡ some c → c < length m.tasks

-- The index that the scheduler chooses with `n` tasks.
abbrev pub successor : Option ℕ → ℕ → ℕ
successor none n = 0
successor (some c) n = if c + 1 == n then 0 else c + 1

next_index-successor :
    (c : Option ℕ) (n : ℕ) → 0 < n → ((i : ℕ) → c ≡ some i → i < n) → next_index c n ≡ successor c n
unfolding next_index
next_index-successor none n h v = ground arith
next_index-successor (some c) n h v =
    let b : c < n = v c refl in
    elim (ℕ_discrete (c + 1) n) [
      | yes e ↦ let wraps : (c + 1) % n ≡ 0 = ap (λ (t : ℕ). t % n) e ∙ mod_self n in ground arith
      | no ne ↦ ground arith
    ]

-- The tasks behind a switch: the one that ran holds the interrupted registers, the others keep theirs.
abbrev pub saved : Option ℕ → ℕ → ℕ → Task → ℕ
saved none state i t = t.cpustate
saved (some c) state i t = if c == i then state else t.cpustate

abbrev pub IsSaved : Option ℕ → ℕ → List Task → List Task → Type 0
IsSaved c state ts us =
    (length us ≡ length ts)
    × ((i : ℕ) (t : Task)
        → get_elem? ts i ≡ some t
        → get_elem? us i ≡ some (record t { cpustate = saved c state i t }))

set-IsSaved :
    (c state : ℕ) (ts : List Task) (t : Task)
    → c < length ts
    → get_elem? ts c ≡ some t
    → IsSaved (some c) state ts (set ts c (record t { cpustate = state }))
set-IsSaved c state ts t h e = (length-set ts c _, λ i u f. place i u f (ℕ_discrete c i))
  where
    place :
        (i : ℕ) (u : Task)
        → get_elem? ts i ≡ some u
        → Dec (c ≡ i)
        → get_elem? (set ts c (record t { cpustate = state })) i
          ≡ some (record u { cpustate = saved (some c) state i u })
    place i u f (yes same) =
        let kept = get_elem?-set_self ts c (record t { cpustate = state }) h in
        let both : get_elem? ts c ≡ some u = rw same f in
        let eq : t ≡ u = some-injective t u (sym e ∙ both) in rw (← same, eq→== c c refl, ← eq) kept
    place i u f (no apart) =
        rw (ne→== c i apart) (get_elem?-set_ne ts c i (record t { cpustate = state }) apart ∙ f)

save-IsSaved :
    (c : Option ℕ) (state : ℕ) (ts : List Task)
    → ((i : ℕ) → c ≡ some i → i < length ts)
    → Ensures (IsSaved c state ts) (save c state ts)
unfolding save
save-IsSaved none state ts v = (refl, λ i t e. e)
save-IsSaved (some c) state ts v =
    let (t, e) = get_elem?-some ts c (v c refl) in rw e (set-IsSaved c state ts t (v c refl) e)

abbrev pub IsScheduled : ℕ → TaskManager → ℕ × TaskManager → Type 0
IsScheduled state m r =
    (r.1.current ≡ some (successor m.current (length m.tasks)))
    × IsSaved m.current state m.tasks r.1.tasks
    × ((t : Task) × (get_elem? r.1.tasks (successor m.current (length m.tasks)) ≡ some t)
        × (r.0 ≡ t.cpustate))

successor-lt : (c : Option ℕ) (n : ℕ) → 0 < n → ((i : ℕ) → c ≡ some i → i < n) → successor c n < n
successor-lt none n h v = h
successor-lt (some c) n h v = let b : c < n = v c refl in ground arith

chosen :
    (state : ℕ) (m : TaskManager)
    → IsValid m
    → 0 < length m.tasks
    → (ts : List Task) → IsSaved m.current state m.tasks ts
    → Ensures (IsScheduled state m) (
        get_elem? ts (successor m.current (length m.tasks)) >>= λ t.
        some (
          t.cpustate,
          record { tasks = ts; current = some (successor m.current (length m.tasks)) },
        ))
chosen state m v pos ts sv =
    let i = successor m.current (length m.tasks) in
    let inside : i < length ts =
      omega (arith, successor-lt m.current (length m.tasks) pos v.runs, sv.0) in
    let (t, e) = get_elem?-some ts i inside in rw e (refl, sv, (t, e, refl))

-- In a valid manager with at least one task, the scheduler goes on to the next in turn. It
-- returns the registers that are saved for the chosen task, which are the given ones if it is the
-- only task and has run, and stores the given registers with the task that ran; the other tasks
-- are as they were.
pub schedule_lem :
    (state : ℕ) (m : TaskManager)
    → IsValid m
    → 0 < length m.tasks
    → Ensures (IsScheduled state m) (schedule state m)
unfolding schedule
schedule_lem state m v some_task =
    let n = length m.tasks in
    rw (gt→leb n 0 some_task, next_index-successor m.current n some_task v.runs)
      (Ensures-bind (IsSaved m.current state m.tasks) (IsScheduled state m)
        (save m.current state m.tasks) _ (save-IsSaved m.current state m.tasks v.runs)
        (chosen state m v some_task))

-- In a valid manager with at least one task, the scheduler reads no slot without a task, and leaves a
-- valid manager.
pub schedule-IsValid :
    (state : ℕ) (m : TaskManager)
    → IsValid m
    → 0 < length m.tasks
    → Ensures (λ r. IsValid r.1) (schedule state m)
schedule-IsValid state m v pos =
    let ((esp, m'), e, sc) =
      Ensures-some (IsScheduled state m) (schedule state m) (schedule_lem state m v pos) in
    let inside = successor-lt m.current (length m.tasks) pos v.runs in
    rw e (record {
      fits = omega (arith, sc.1.0, v.fits);
      runs = λ c f.
          let same = some-injective c _ (sym f ∙ sc.0) in omega (arith, same, inside, sc.1.0);
    })
