-- ===== src/ThreadPool/Invariant/Kept.antt =====
-- Every state that a pool comes to has true counts.
use iu_sp.Base.{ℕ, ◌<◌, ◌≡◌, refl, subst, List, arith, length, total}
use iu_sp.ThreadPool.Task.{Task}
use iu_sp.ThreadPool.Pool.{Pool, ask_exit}
use iu_sp.ThreadPool.System.{
  Worker, Client, System, Step, push, enqueue, start, take, exit, finish, call, delete, ask, joined,
  deleted, Reachable, created_pool, later,
}
use iu_sp.ThreadPool.Invariant.{IsCounted, IsExpecting}
use iu_sp.ThreadPool.Invariant.Moves.{push_begin-Pushed, worker_turn-Took}
use iu_sp.ThreadPool.Invariant.Steps.{
  push-IsCounted, enqueue-IsCounted, start-IsCounted, take-IsCounted, exit-IsCounted,
  finish-IsCounted,
}

pub client_at :
    {n : ℕ} {p : Pool} {ws : List Worker} {a b : Client}
    → a ≡ b
    → IsCounted n p ws a
    → IsCounted n p ws b
client_at {n} {p} {ws} at c = subst (λ x. IsCounted n p ws x) at c

-- The client goes on, with the same pool.
client_moved :
    {n : ℕ} {p : Pool} {ws : List Worker} {a b : Client}
    → IsCounted n p ws a
    → IsExpecting b p ws
    → IsCounted n p ws b
client_moved c x = record {
  started = c.started;
  idle = c.idle;
  running = c.running;
  pending = c.pending;
  few = c.few;
  limit = c.limit;
  within = c.within;
  none_created = c.none_created;
  expecting = x;
}

ask-IsCounted :
    {n : ℕ} {p : Pool} {ws : List Worker} {client : Client} (i : ℕ)
    → IsCounted n p ws client
    → p.thread_count ≡ length ws
    → IsCounted n (ask_exit i p) ws (Client.joining i)
unfolding ask_exit
ask-IsCounted i c all = record {
  started = c.started;
  idle = c.idle;
  running = c.running;
  pending = c.pending;
  few = c.few;
  limit = c.limit;
  within = c.within;
  none_created = c.none_created;
  expecting = all;
}

pub Step-IsCounted :
    {n : ℕ} {s s' : System}
    → 0 < n
    → Step s s'
    → IsCounted n s.pool s.workers s.client
    → IsCounted n s'.pool s'.workers s'.client
Step-IsCounted {n} {s} some_threads (push task at e) c =
    let begun = push_begin-Pushed s.pool e in
    push-IsCounted task some_threads (client_at at c) begun.0 begun.1
Step-IsCounted some_threads (enqueue at e) c = enqueue-IsCounted (client_at at c) e
Step-IsCounted some_threads (start k e) c = start-IsCounted k c e
Step-IsCounted {s} some_threads (take k {idx} e t) c =
    take-IsCounted k c e (worker_turn-Took idx s.pool t)
Step-IsCounted some_threads (exit k e t) c = exit-IsCounted k c e
Step-IsCounted some_threads (finish k value e t) c = finish-IsCounted k c e
Step-IsCounted some_threads (call task t) c = c
Step-IsCounted some_threads (delete at idle) c = client_moved c (client_at at c).expecting
Step-IsCounted some_threads (ask {i} at less) c = ask-IsCounted i c (client_at at c).expecting
Step-IsCounted some_threads (joined at e) c = client_moved c (client_at at c).expecting
Step-IsCounted some_threads (deleted at e) c = client_moved c (client_at at c).expecting

-- In every state that a pool of at least one thread comes to, in any interleaving of its workers with
-- one calling thread, `thread_count`, `idle_thread_count` and `running_task_count` count the workers
-- that have started, that have no task and that run one, `pending_task_count` is the length of the
-- list and at most TPOOL_MAX_TASKS, and there are at most `max_thread_count` workers.
pub Reachable-IsCounted :
    {n : ℕ} {tasks : ℕ → Task} {s : System}
    → 0 < n
    → Reachable n tasks s
    → IsCounted n s.pool s.workers s.client
unfolding total
Reachable-IsCounted some_threads created_pool = record {
  started = refl;
  idle = refl;
  running = refl;
  pending = refl;
  few = omega arith;
  limit = refl;
  within = omega arith;
  none_created = λ no. refl;
  expecting = refl;
}
Reachable-IsCounted some_threads (later r st) =
    Step-IsCounted some_threads st (Reachable-IsCounted some_threads r)
