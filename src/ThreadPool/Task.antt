-- ===== src/ThreadPool/Task.antt =====
-- struct thread_task and its calls. A call of a task sees it with the task's mutex held, so each is
-- one step from the task to its next state.
use iu_sp.Base.{
  ℕ, Bool, true, false, Option, none, some, List, [], ◌∷◌, if◌then◌else◌, Run, ok, fault,
}

-- 0 and the codes of enum thread_pool_errcode
pub data Code : Type 0 where
  success invalid_argument too_many_tasks has_tasks task_not_pushed task_in_pool : Code
  not_implemented timeout : Code

-- A `void *` is a number. `in_pool` says that `pool` is not NULL: there is one pool. The function and
-- its argument only matter through the result.
pub record Task : Type 0 where
  pub in_pool : Bool
  pub is_detached : Bool
  pub is_running : Bool
  pub is_finished : Bool
  pub result : ℕ

unfoldable pub thread_task_new : Task
thread_task_new = record {
  in_pool = false;
  is_detached = false;
  is_running = false;
  is_finished = false;
  result = 0;
}

unfoldable pub thread_task_is_finished : Task → Bool
thread_task_is_finished t = t.is_finished

unfoldable pub thread_task_is_running : Task → Bool
thread_task_is_running t = t.is_running

-- How a call of a task ends: with a code, what it stores through `result`, and the task, `none` once
-- it is freed. It may also wait for ever.
pub data Ending : Type 0 where
  returned : (code : Code) (result : Option ℕ) (task : Option Task) → Ending
  waits : Ending

-- An error changes nothing.
abbrev refuse : Code → Task → Ending
refuse code t = Ending.returned code none (some t)

-- the end of both joins
unfoldable pub take_result : Task → Ending
take_result t = Ending.returned Code.success (some t.result) (some (record t { in_pool = false }))

-- The task as each wake-up of the condition variable finds it, in order.
unfoldable pub join_loop : List Task → Task → Ending
join_loop [] t = if t.is_finished then take_result t else Ending.waits
join_loop (u ∷ wakes) t =
    let rest = join_loop wakes u in if t.is_finished then take_result t else rest

unfoldable pub thread_task_join : List Task → Task → Ending
thread_task_join wakes t =
    let joined = join_loop wakes t in if t.in_pool then joined else refuse Code.task_not_pushed t

-- One return of pthread_cond_timedwait: whether with ETIMEDOUT, and the task as it is then.
pub record Wake : Type 0 where
  pub timed_out : Bool
  pub found : Task

-- The loop on `cond_res`, and the test after it: a time-out counts even if the task has finished.
unfoldable pub timed_loop : List Wake → Task → Ending
timed_loop [] t = if t.is_finished then take_result t else Ending.waits
timed_loop (w ∷ wakes) t =
    let rest = timed_loop wakes w.found in
    let next = if w.timed_out then refuse Code.timeout w.found else rest in
    if t.is_finished then take_result t else next

-- `at_once` is the test `timeout < 0.000000001`
unfoldable pub thread_task_timed_join : (at_once : Bool) → List Wake → Task → Ending
thread_task_timed_join at_once wakes t =
    let waited = timed_loop wakes t in
    let now = if t.is_finished then take_result t else refuse Code.timeout t in
    let joined = if at_once then now else waited in
    if t.in_pool then joined else refuse Code.task_not_pushed t

unfoldable pub thread_task_delete : Task → Ending
thread_task_delete t =
    if t.in_pool then refuse Code.task_in_pool t else Ending.returned Code.success none none

unfoldable pub thread_task_detach : Task → Ending
thread_task_detach t =
    if t.in_pool
    then (if t.is_finished
        then Ending.returned Code.success none none
        else Ending.returned Code.success none
            (some (record t { in_pool = false; is_detached = true })))
    else refuse Code.task_not_pushed t

-- `task->is_running = true` of a worker
unfoldable pub run_task : Task → Task
run_task t = record t { is_running = true }

-- What a worker does with a task that has returned `value`. A detached task is deleted, and the
-- worker then unlocks the mutex in it, a fault if the memory is gone.
unfoldable pub finish_task : ℕ → Task → Run Task
finish_task value t =
    if t.is_detached
    then unlock (thread_task_delete t)
    else ok (record t { is_running = false; is_finished = true; result = value })
  where
    unlock : Ending → Run Task
    unlock (Ending.returned _ _ (some u)) = ok u
    unlock (Ending.returned _ _ none) = fault
    unlock Ending.waits = fault

-- what thread_pool_push_task writes to the task
unfoldable pub enter_pool : Task → Task
enter_pool t = record t { in_pool = true; is_finished = false; is_running = false }
