-- ===== src/ThreadPool/System.antt =====
-- The pool, its tasks and workers, and one thread that calls it, as a system of steps. A step is a
-- stretch of code under a mutex, in any order that the mutexes and waits allow; a wait may end at any
-- time, as pthread_cond_wait may.
use iu_sp.Base.{
  ℕ, suc, ◌<◌, ◌≡◌, ◌==◌, if◌then◌else◌, Bool, false, Option, none, some, List, [], ◌∷◌, ◌++◌,
  get_elem?, set, ok,
}
use iu_sp.ThreadPool.Task.{
  Code, Task, Ending, Wake, thread_task_new, thread_task_join, thread_task_timed_join,
  thread_task_detach, run_task, finish_task, enter_pool,
}
use iu_sp.ThreadPool.Pool.{
  Pool, Turn, new_pool, push_begin, push_end, worker_start, worker_turn, worker_return, has_work,
  ask_exit,
}

-- Where `_thread_worker` is, with its `idx`: created, in the loop without a task, in the function of
-- a task, or ended.
pub data Worker : Type 0 where
  starting idle : (idx : ℕ) → Worker
  busy : (idx task : ℕ) → Worker
  exited : Worker

-- Where the calling thread is: outside of the pool; in the wait of thread_pool_push_task; in the loop
-- of thread_pool_delete, before the round `i` or in the pthread_join of it; after it.
pub data Client : Type 0 where
  ready gone : Client
  pushing : (task required : ℕ) → Client
  deleting joining : (i : ℕ) → Client

-- `tasks` gives the task at an address, and the worker `i` of the list is `threads[i]`.
pub record System : Type 0 where
  pub pool : Pool
  pub tasks : ℕ → Task
  pub workers : List Worker
  pub client : Client

abbrev pub update : (ℕ → Task) → ℕ → Task → ℕ → Task
update tasks t u k = if k == t then u else tasks k

-- the worker that a push creates
abbrev pub created : Option ℕ → List Worker
created none = []
created (some idx) = Worker.starting idx ∷ []

-- a call that changes a task outside of the pool's state
pub data TaskCall (t : Task) : Task → Type 0 where
  new : TaskCall t thread_task_new
  join :
      (wakes : List Task) {code : Code} {result : Option ℕ} {u : Task}
      → thread_task_join wakes t ≡ Ending.returned code result (some u)
      → TaskCall t u
  timed_join :
      (at_once : Bool) (wakes : List Wake) {code : Code} {result : Option ℕ} {u : Task}
      → thread_task_timed_join at_once wakes t ≡ Ending.returned code result (some u)
      → TaskCall t u
  detach :
      {code : Code} {result : Option ℕ} {u : Task}
      → thread_task_detach t ≡ Ending.returned code result (some u)
      → TaskCall t u

pub data Step (s : System) : System → Type 0 where
  push :
      (task : ℕ) {p : Pool} {required : ℕ} {spawned : Option ℕ}
      → s.client ≡ Client.ready
      → push_begin s.pool ≡ some (p, required, spawned)
      → Step s (record s {
        pool = p;
        workers = s.workers ++ created spawned;
        client = Client.pushing task required;
      })
  enqueue :
      {task required : ℕ}
      → s.client ≡ Client.pushing task required
      → s.pool.thread_count ≡ required
      → Step s (record s {
        pool = push_end task s.pool;
        tasks = update s.tasks task (enter_pool (s.tasks task));
        client = Client.ready;
      })
  start :
      (k : ℕ) {idx : ℕ}
      → get_elem? s.workers k ≡ some (Worker.starting idx)
      → Step s
          (record s { pool = worker_start s.pool; workers = set s.workers k (Worker.idle idx) })
  take :
      (k : ℕ) {idx task : ℕ} {p : Pool}
      → get_elem? s.workers k ≡ some (Worker.idle idx)
      → worker_turn idx s.pool ≡ ok (Turn.takes task p)
      → Step s (record s {
        pool = p;
        tasks = update s.tasks task (run_task (s.tasks task));
        workers = set s.workers k (Worker.busy idx task);
      })
  exit :
      (k : ℕ) {idx : ℕ}
      → get_elem? s.workers k ≡ some (Worker.idle idx)
      → worker_turn idx s.pool ≡ ok Turn.exits
      → Step s (record s { workers = set s.workers k Worker.exited })
  finish :
      (k : ℕ) {idx task : ℕ} (value : ℕ) {u : Task}
      → get_elem? s.workers k ≡ some (Worker.busy idx task)
      → finish_task value (s.tasks task) ≡ ok u
      → Step s (record s {
        pool = worker_return s.pool;
        tasks = update s.tasks task u;
        workers = set s.workers k (Worker.idle idx);
      })
  call :
      (task : ℕ) {u : Task}
      → TaskCall (s.tasks task) u
      → Step s (record s { tasks = update s.tasks task u })
  delete :
      s.client ≡ Client.ready
      → has_work s.pool ≡ false
      → Step s (record s { client = Client.deleting 0 })
  ask :
      {i : ℕ}
      → s.client ≡ Client.deleting i
      → i < s.pool.thread_count
      → Step s (record s { pool = ask_exit i s.pool; client = Client.joining i })
  joined :
      {i : ℕ}
      → s.client ≡ Client.joining i
      → get_elem? s.workers i ≡ some Worker.exited
      → Step s (record s { client = Client.deleting (suc i) })
  deleted :
      {i : ℕ}
      → s.client ≡ Client.deleting i
      → s.pool.thread_count ≡ i
      → Step s (record s { client = Client.gone })

abbrev pub initial : ℕ → (ℕ → Task) → System
initial n tasks = record { pool = new_pool n; tasks = tasks; workers = []; client = Client.ready }

-- the systems that a new pool of `n` threads comes to
pub data Reachable (n : ℕ) (tasks : ℕ → Task) : System → Type 0 where
  created_pool : Reachable n tasks (initial n tasks)
  later : {s s' : System} → Reachable n tasks s → Step s s' → Reachable n tasks s'
