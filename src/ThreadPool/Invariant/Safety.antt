-- ===== src/ThreadPool/Invariant/Safety.antt =====
-- What the counts give: no worker reads NULL for a task, a push that waits has a worker to wait for,
-- and a pool that is deleted is at rest.
use iu_sp.Base.{
  All, ℕ, suc, ◌≤◌, ◌<◌, ◌≡◌, refl, false, some, List, [], ◌∷◌, arith, length, get_elem?, total,
  ◌⊎◌, inl, inr, ok, ltb,
}
use iu_sp.ThreadPool.Task.{Task}
use iu_sp.ThreadPool.Pool.{Pool, Turn, take_task, worker_turn, has_work, should_exit}
use iu_sp.ThreadPool.System.{Worker, Client, System, Reachable}
use iu_sp.ThreadPool.Invariant.{is_started, is_idle}
use iu_sp.ThreadPool.Invariant.Moves.{took}
use iu_sp.ThreadPool.Invariant.Kept.{client_at, Reachable-IsCounted}

take_task-takes :
    (tasks : List ℕ) (p : Pool)
    → 0 < length tasks
    → (task : ℕ) × (rest : List ℕ) × (tasks ≡ task ∷ rest)
      × (take_task tasks p ≡ ok (Turn.takes task (took p rest)))
unfolding take_task
take_task-takes [] p h = absurd (omega arith)
take_task-takes (task ∷ rest) p h = (task, rest, refl, refl)

find_starting :
    (ws : List Worker)
    → (total is_started ws ≡ length ws)
      ⊎ ((k : ℕ) × (idx : ℕ) × (get_elem? ws k ≡ some (Worker.starting idx)))
unfolding total
find_starting [] = inl refl
find_starting (Worker.starting idx ∷ ws) = inr (0, idx, refl)
find_starting (w ∷ ws) = elim (find_starting ws) [
  | inl all ↦ inl (omega (arith, all))
  | inr (k, idx, e) ↦ inr (suc k, idx, e)
]

no_tasks : (tasks : List ℕ) → length tasks ≡ 0 → tasks ≡ []
no_tasks [] e = refl
no_tasks (t ∷ tasks) e = absurd (omega arith)

is_idle-le : (w : Worker) → is_idle w ≤ 1
is_idle-le (Worker.starting idx) = omega arith
is_idle-le (Worker.idle idx) = omega arith
is_idle-le (Worker.busy idx task) = omega arith
is_idle-le Worker.exited = omega arith

total-is_idle : (ws : List Worker) → total is_idle ws ≤ length ws
unfolding total
total-is_idle [] = omega arith
total-is_idle (w ∷ ws) = omega (arith, is_idle-le w, total-is_idle ws)

every_idle : (ws : List Worker) → total is_idle ws ≡ length ws → All (λ w. is_idle w ≡ 1) ws
unfolding total
every_idle [] e = tt
every_idle (w ∷ ws) e =
    let one = is_idle-le w in
    let rest = total-is_idle ws in (omega arith, every_idle ws (omega arith))

-- A worker that is not told to exit, in a state with pending tasks, takes the first of the list: it is
-- not NULL.
pub worker_turn-takes :
    {n : ℕ} {tasks : ℕ → Task} {s : System} (idx : ℕ)
    → 0 < n
    → Reachable n tasks s
    → should_exit s.pool.thread_idx_that_should_exit idx ≡ false
    → 0 < s.pool.pending_task_count
    → (task : ℕ) × (rest : List ℕ) × (s.pool.pending_task_list ≡ task ∷ rest)
      × (worker_turn idx s.pool ≡ ok (Turn.takes task (took s.pool rest)))
unfolding worker_turn
worker_turn-takes {s} idx some_threads r stay some_pending =
    let busy : ltb s.pool.pending_task_count 1 ≡ false = ground arith in
    let (task, rest, e, t) =
      take_task-takes s.pool.pending_task_list s.pool
        (omega (arith, (Reachable-IsCounted some_threads r).pending)) in
    (task, rest, e, rw (stay, busy) t)

-- While a push waits, either there are as many threads as it requires, or a worker is about to start.
pub pushing-progress :
    {n : ℕ} {tasks : ℕ → Task} {s : System} {task required : ℕ}
    → 0 < n
    → Reachable n tasks s
    → s.client ≡ Client.pushing task required
    → (s.pool.thread_count ≡ required)
      ⊎ ((k : ℕ) × (idx : ℕ) × (get_elem? s.workers k ≡ some (Worker.starting idx)))
pushing-progress {s} some_threads r at =
    let c = client_at at (Reachable-IsCounted some_threads r) in
    elim (find_starting s.workers) [
      | inl all ↦ inl (omega (arith, c.started, c.expecting.0, all))
      | inr found ↦ inr found
    ]

-- When thread_pool_delete does not fail with HAS_TASKS, no task is pending and no worker runs one:
-- each has started and is idle or has exited.
pub has_work-at_rest :
    {n : ℕ} {tasks : ℕ → Task} {s : System}
    → 0 < n
    → Reachable n tasks s
    → s.client ≡ Client.ready
    → has_work s.pool ≡ false
    → (s.pool.pending_task_list ≡ []) × All (λ w. is_idle w ≡ 1) s.workers
unfolding has_work
has_work-at_rest {s} some_threads r at idle =
    let c = client_at at (Reachable-IsCounted some_threads r) in
    (
      no_tasks s.pool.pending_task_list (ground (arith, idle, c.pending)),
      every_idle s.workers (ground (arith, idle, c.idle, c.expecting)),
    )
