-- ===== src/ThreadPool/TaskLaws.antt =====
-- The life of a task: its result is joined, and a detached task ends in a fault.
use iu_sp.Base.{ℕ, ◌≡◌, refl, true, false, none, some, fault}
use iu_sp.ThreadPool.Task.{Code, Task, Ending, thread_task_detach, thread_task_delete, finish_task}

-- A task that is detached before it has finished: when its function returns, its worker deletes it and
-- then unlocks the mutex in the freed memory.
pub detach-finish_task :
    (t : Task) (value : ℕ)
    → t.in_pool ≡ true
    → t.is_finished ≡ false
    → let u = record t { in_pool = false; is_detached = true } in
      (thread_task_detach t ≡ Ending.returned Code.success none (some u))
      × (finish_task value u ≡ fault)
unfolding thread_task_detach finish_task thread_task_delete
detach-finish_task t value pushed running = (rw (pushed, running), refl)
