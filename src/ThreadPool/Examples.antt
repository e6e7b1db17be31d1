-- ===== src/ThreadPool/Examples.antt =====
-- A pool of one thread that runs a task, and what the theorems give of it.
use iu_sp.Base.{
  All, ℕ, ◌≡◌, refl, ◌⊎◌, true, false, none, some, List, [], ◌∷◌, arith, get_elem?, ok, fault,
}
use iu_sp.ThreadPool.Task.{
  Code, Task, Ending, thread_task_new, thread_task_detach, run_task, finish_task, enter_pool,
}
use iu_sp.ThreadPool.TaskLaws.{detach-finish_task}
use iu_sp.ThreadPool.Pool.{
  Turn, new_pool, push_begin, push_end, worker_start, worker_turn, worker_return, take_task,
  should_exit, has_work,
}
use iu_sp.ThreadPool.System.{
  Worker, Client, System, initial, update, Reachable, created_pool, later, push, enqueue, start,
  take, finish,
}
use iu_sp.ThreadPool.Invariant.{IsCounted, is_idle}
use iu_sp.ThreadPool.Invariant.Moves.{took}
use iu_sp.ThreadPool.Invariant.Kept.{Reachable-IsCounted}
use iu_sp.ThreadPool.Invariant.Safety.{worker_turn-takes, pushing-progress, has_work-at_rest}

abbrev tasks : ℕ → Task
tasks k = thread_task_new

-- the push of task 5 waits for the first worker
abbrev waiting : System
waiting = record (initial 1 tasks) {
  pool = record (new_pool 1) { has_threads = true };
  workers = Worker.starting 0 ∷ [];
  client = Client.pushing 5 1;
}

waiting-Reachable : Reachable 1 tasks waiting
unfolding push_begin
waiting-Reachable = later created_pool (push 5 refl refl)

-- the worker has started
abbrev started : System
started = record waiting {
  pool = record waiting.pool { thread_count = 1; idle_thread_count = 1 };
  workers = Worker.idle 0 ∷ [];
}

-- the task is in the list
abbrev pushed : System
pushed = record started {
  pool = record started.pool { pending_task_list = 5 ∷ []; pending_task_count = 1 };
  tasks = update tasks 5 (record thread_task_new { in_pool = true });
  client = Client.ready;
}

pushed-Reachable : Reachable 1 tasks pushed
unfolding push_end worker_start enter_pool thread_task_new
pushed-Reachable = later (later waiting-Reachable (start 0 refl)) (enqueue refl refl)

abbrev ran : ℕ → Task
ran = update pushed.tasks 5 (run_task (pushed.tasks 5))

abbrev finished : Task
finished = record (ran 5) { is_running = false; is_finished = true; result = 9 }

-- the worker has run it
abbrev idle : System
idle = record {
  pool = record started.pool { pending_task_list = [] };
  tasks = update ran 5 finished;
  workers = Worker.idle 0 ∷ [];
  client = Client.ready;
}

idle-Reachable : Reachable 1 tasks idle
unfolding worker_turn take_task should_exit worker_return finish_task run_task thread_task_new
idle-Reachable = later (later pushed-Reachable (take 0 refl refl)) (finish 0 9 refl refl)

Reachable-IsCounted_example : IsCounted 1 pushed.pool pushed.workers pushed.client
Reachable-IsCounted_example = Reachable-IsCounted (omega arith) pushed-Reachable

worker_turn-takes_example :
    (task : ℕ) × (rest : List ℕ) × (pushed.pool.pending_task_list ≡ task ∷ rest)
    × (worker_turn 0 pushed.pool ≡ ok (Turn.takes task (took pushed.pool rest)))
unfolding should_exit
worker_turn-takes_example = worker_turn-takes 0 (omega arith) pushed-Reachable refl (omega arith)

pushing-progress_example :
    (waiting.pool.thread_count ≡ 1)
    ⊎ ((k : ℕ) × (idx : ℕ) × (get_elem? waiting.workers k ≡ some (Worker.starting idx)))
pushing-progress_example = pushing-progress (omega arith) waiting-Reachable refl

has_work-at_rest_example :
    (idle.pool.pending_task_list ≡ []) × All (λ w. is_idle w ≡ 1) idle.workers
unfolding has_work
has_work-at_rest_example = has_work-at_rest (omega arith) idle-Reachable refl refl

detach-finish_task_example :
    (thread_task_detach (record thread_task_new { in_pool = true })
      ≡ Ending.returned Code.success none (some (record thread_task_new { is_detached = true })))
    × (finish_task 9 (record thread_task_new { is_detached = true }) ≡ fault)
unfolding thread_task_new
detach-finish_task_example =
    detach-finish_task (record thread_task_new { in_pool = true }) 9 refl refl
