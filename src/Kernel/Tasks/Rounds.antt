-- ===== src/Kernel/Tasks/Rounds.antt =====
-- Many calls of the scheduler: every task gets its turn.
use sector_os.Base.{
  ℕ, zero, suc, ◌+◌, ◌-◌, ◌≡◌, ◌≤◌, ◌<◌, refl, true, false, Option, none, some, ◌>>=◌, length, ◌==◌,
  if◌then◌else◌, arith, Ensures, Ensures-some, eq→==, ne→==, dec_lt, ap, ltb, lt→ltb, ge→ltb,
  ℕ_discrete, ◌∙◌,
}
use sector_os.Kernel.Tasks.{TaskManager, schedule}
use sector_os.Kernel.Tasks.Fairness.{
  IsValid, successor, schedule_lem, schedule-IsValid, IsScheduled,
}

-- The manager behind as many calls; `states` are the registers that they are given.
abbrev pub rounds : ℕ → (ℕ → ℕ) → TaskManager → Option TaskManager
rounds zero states m = some m
rounds (suc k) states m = schedule (states k) m >>= λ r. rounds k states r.1

-- The index behind as many steps to the next in turn.
after : ℕ → Option ℕ → ℕ → Option ℕ
after zero c n = c
after (suc k) c n = after k (some (successor c n)) n

rounds-after :
    (k : ℕ) (states : ℕ → ℕ) (m : TaskManager)
    → IsValid m
    → 0 < length m.tasks
    → Ensures
        (λ m'.
          IsValid m'
          × (length m'.tasks ≡ length m.tasks)
          × (m'.current ≡ after k m.current (length m.tasks)))
        (rounds k states m)
unfolding after
rounds-after zero states m v pos = (v, refl, refl)
rounds-after (suc k) states m v pos =
    let ((esp, m'), e, sc) =
      Ensures-some (IsScheduled (states k) m) (schedule (states k) m)
        (schedule_lem (states k) m v pos) in
    let v' : IsValid m' = rw e at (schedule-IsValid (states k) m v pos) in
    let same : length m'.tasks ≡ length m.tasks = sc.1.0 in
    let rest = rounds-after k states m' v' (omega (arith, same)) in rw e (rw (same, sc.0) at rest)

after-some : (k c n : ℕ) → c + k < n → after k (some c) n ≡ some (c + k)
unfolding after
after-some zero c n h = ap some (omega arith)
after-some (suc k) c n h =
    let next : (c + 1 == n) ≡ false = ground arith in
    let sum : c + 1 + k ≡ c + suc k = omega arith in
    rw next (after-some k (c + 1) n (omega arith) ∙ ap some sum)

after-wrap : (k c i n : ℕ) → k + c ≡ n + i → c < n → i < n → after k (some c) n ≡ some i
unfolding after
after-wrap zero c i n h lt li = absurd (omega arith)
after-wrap (suc k) c i n h lt li = elim (ℕ_discrete (c + 1) n) [
  | yes e ↦
      let wraps : (c + 1 == n) ≡ true = eq→== _ _ e in
      let left : k ≡ i = omega arith in
      rw wraps (after-some k 0 n (omega arith) ∙ ap some (omega arith))
  | no ne ↦
      let goes_on : (c + 1 == n) ≡ false = ne→== _ _ ne in
      rw goes_on (after-wrap k (c + 1) i n (omega arith) (omega arith) li)
]

-- The steps from one index to another, at least one and at most as many as there are tasks.
distance : Option ℕ → ℕ → ℕ → ℕ
distance none i n = i + 1
distance (some c) i n = if ltb c i then i - c else n + i - c

distance_range :
    (c : Option ℕ) (i n : ℕ)
    → i < n
    → ((j : ℕ) → c ≡ some j → j < n)
    → (1 ≤ distance c i n) × (distance c i n ≤ n)
unfolding distance
distance_range none i n h v = omega arith
distance_range (some c) i n h v = ground (arith, v c refl)

after-distance :
    (c : Option ℕ) (i n : ℕ)
    → i < n
    → ((j : ℕ) → c ≡ some j → j < n)
    → after (distance c i n) c n ≡ some i
unfolding distance after
after-distance none i n h v =
    let k : i + 1 ≡ suc i = omega arith in
    rw k (after-some i 0 n (omega arith) ∙ ap some (omega arith))
after-distance (some c) i n h v = elim (dec_lt c i) [
  | yes l ↦ rw (lt→ltb c i l) (after-some (i - c) c n (omega arith) ∙ ap some (omega arith))
  | no l ↦
      let inside : c < n = v c refl in
      rw (ge→ltb c i (omega arith)) (after-wrap (n + i - c) c i n (omega arith) inside h)
]

-- In a valid manager every task gets its turn within as many calls of the scheduler as there are tasks:
-- after one of them the task is the current one, whatever registers the calls are given to save. The
-- manager is valid then, with as many tasks.
pub every_task_runs :
    (m : TaskManager) (i : ℕ) (states : ℕ → ℕ)
    → IsValid m
    → i < length m.tasks
    → (k : ℕ) × (1 ≤ k)
      × (k ≤ length m.tasks)
      × Ensures
          (λ m'. IsValid m' × (length m'.tasks ≡ length m.tasks) × (m'.current ≡ some i))
          (rounds k states m)
every_task_runs m i states v h =
    let n = length m.tasks in
    let k = distance m.current i n in
    let range = distance_range m.current i n h v.runs in
    (
      k,
      range.0,
      range.1,
      rw (after-distance m.current i n h v.runs) at (rounds-after k states m v (omega arith)),
    )
