-- ===== src/ThreadPool/Pool.antt =====
-- struct thread_pool, and what the code does to it in each stretch that holds the pool's mutex.
use iu_sp.Base.{
  ℕ, ◌+◌, ◌-◌, Bool, true, false, ◌&&◌, ◌||◌, not, Option, none, some, List, [], ◌∷◌, ltb, ◌==◌,
  if◌then◌else◌, Run, ok, fault,
}
use iu_sp.Int.{ℤ, pos, negsuc}
use iu_sp.ThreadPool.Task.{Code, invalid_argument, success}

abbrev pub max_threads : ℕ
max_threads = 20

abbrev pub max_tasks : ℕ
max_tasks = 100000

-- `has_threads` says that `threads` is not NULL; the list holds the addresses of the tasks.
pub record Pool : Type 0 where
  pub has_threads : Bool
  pub max_thread_count : ℕ
  pub thread_count : ℕ
  pub idle_thread_count : ℕ
  pub thread_idx_that_should_exit : ℤ
  pub pending_task_count : ℕ
  pub running_task_count : ℕ
  pub pending_task_list : List ℕ

abbrev pub new_pool : ℕ → Pool
new_pool n = record {
  has_threads = false;
  max_thread_count = n;
  thread_count = 0;
  idle_thread_count = 0;
  thread_idx_that_should_exit = negsuc 0;
  pending_task_count = 0;
  running_task_count = 0;
  pending_task_list = [];
}

unfoldable pub thread_pool_new : ℤ → Code × Option Pool
thread_pool_new (negsuc n) = (invalid_argument, none)
thread_pool_new (pos n) =
    if ltb n 1 || ltb max_threads n then (invalid_argument, none) else (success, some (new_pool n))

unfoldable pub thread_pool_thread_count : Pool → ℕ
thread_pool_thread_count p = p.thread_count

-- thread_pool_push_task up to its wait: the pool, `required_thread_count`, and the index of a new
-- worker if it creates one. `none` where the pool has too many tasks.
unfoldable pub push_begin : Pool → Option (Pool × ℕ × Option ℕ)
push_begin p =
    if not (ltb p.pending_task_count max_tasks)
    then none
    else if not p.has_threads
    then some (record p { has_threads = true }, 1, some 0)
    else if (p.idle_thread_count == 0) && ltb p.thread_count p.max_thread_count
    then some (p, p.thread_count + 1, some p.thread_count)
    else some (p, p.thread_count, none)

-- the rest of it, once there are as many threads as required
unfoldable pub push_end : ℕ → Pool → Pool
push_end task p = record p {
  pending_task_list = task ∷ p.pending_task_list;
  pending_task_count = p.pending_task_count + 1;
}

-- a new worker counts itself, and is idle at once
unfoldable pub worker_start : Pool → Pool
worker_start p = record p {
  thread_count = p.thread_count + 1;
  idle_thread_count = p.idle_thread_count + 1;
}

-- What an idle worker does when it has the mutex.
pub data Turn : Type 0 where
  waits exits : Turn
  takes : (task : ℕ) (pool : Pool) → Turn

-- `pool->pending_task_list` is read whatever it holds, so that NULL is a fault.
unfoldable pub take_task : List ℕ → Pool → Run Turn
take_task [] p = fault
take_task (task ∷ tasks) p = ok (
    Turn.takes task (record p {
      pending_task_list = tasks;
      idle_thread_count = p.idle_thread_count - 1;
      pending_task_count = p.pending_task_count - 1;
      running_task_count = p.running_task_count + 1;
    }))

-- `thread_idx_that_should_exit == idx`
unfoldable pub should_exit : ℤ → ℕ → Bool
should_exit (pos n) idx = n == idx
should_exit (negsuc n) idx = false

unfoldable pub worker_turn : ℕ → Pool → Run Turn
worker_turn idx p =
    if should_exit p.thread_idx_that_should_exit idx
    then ok Turn.exits
    else if ltb p.pending_task_count 1
    then ok Turn.waits
    else take_task p.pending_task_list p

-- a worker comes back from its task, and is idle again
unfoldable pub worker_return : Pool → Pool
worker_return p = record p {
  running_task_count = p.running_task_count - 1;
  idle_thread_count = p.idle_thread_count + 1;
}

-- the test of thread_pool_delete: whether it fails with HAS_TASKS
unfoldable pub has_work : Pool → Bool
has_work p =
    ltb 0 p.running_task_count
    || ltb 0 p.pending_task_count
    || not (p.idle_thread_count == p.thread_count)

-- the worker `i` is told to exit
unfoldable pub ask_exit : ℕ → Pool → Pool
ask_exit i p = record p { thread_idx_that_should_exit = pos i }
