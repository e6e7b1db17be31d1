-- ===== src/ThreadPool/Invariant.antt =====
-- The counts of the pool are true in every state that it comes to.
pub mod Moves
pub mod Steps
pub mod Kept
pub mod Safety
use iu_sp.Base.{
  ℕ, zero, suc, ◌+◌, ◌≤◌, ◌<◌, ◌≡◌, refl, subst, sym, false, true, some, List, [], ◌∷◌, ◌++◌, arith,
  length, get_elem?, set, total, total-set, total-append, le-total, length-append, length-set,
}
use iu_sp.ThreadPool.Pool.{Pool, max_tasks}
use iu_sp.ThreadPool.System.{Worker, Client, System, initial, created}

abbrev pub is_started : Worker → ℕ
is_started (Worker.starting idx) = 0
is_started (Worker.idle idx) = 1
is_started (Worker.busy idx task) = 1
is_started Worker.exited = 1

-- a worker that has exited counted itself as idle before
abbrev pub is_idle : Worker → ℕ
is_idle (Worker.starting idx) = 0
is_idle (Worker.idle idx) = 1
is_idle (Worker.busy idx task) = 0
is_idle Worker.exited = 1

abbrev pub is_busy : Worker → ℕ
is_busy (Worker.starting idx) = 0
is_busy (Worker.idle idx) = 0
is_busy (Worker.busy idx task) = 1
is_busy Worker.exited = 0

-- While a push waits, it requires one thread for each worker, and the pool has room for the task;
-- at any other time every worker has started.
abbrev pub IsExpecting : Client → Pool → List Worker → Type 0
IsExpecting (Client.pushing task required) p ws =
    (required ≡ length ws) × (p.pending_task_count < max_tasks)
IsExpecting Client.ready p ws = p.thread_count ≡ length ws
IsExpecting Client.gone p ws = p.thread_count ≡ length ws
IsExpecting (Client.deleting i) p ws = p.thread_count ≡ length ws
IsExpecting (Client.joining i) p ws = p.thread_count ≡ length ws

pub record IsCounted (n : ℕ) (p : Pool) (ws : List Worker) (c : Client) : Type 0 where
  pub started : p.thread_count ≡ total is_started ws
  pub idle : p.idle_thread_count ≡ total is_idle ws
  pub running : p.running_task_count ≡ total is_busy ws
  pub pending : p.pending_task_count ≡ length p.pending_task_list
  pub few : p.pending_task_count ≤ max_tasks
  pub limit : p.max_thread_count ≡ n
  pub within : length ws ≤ n
  pub none_created : p.has_threads ≡ false → length ws ≡ 0
  pub expecting : IsExpecting c p ws

pub total-is_started : (ws : List Worker) → total is_started ws ≤ length ws
unfolding total
total-is_started [] = omega arith
total-is_started (Worker.starting idx ∷ ws) = omega (arith, total-is_started ws)
total-is_started (Worker.idle idx ∷ ws) = omega (arith, total-is_started ws)
total-is_started (Worker.busy idx task ∷ ws) = omega (arith, total-is_started ws)
total-is_started (Worker.exited ∷ ws) = omega (arith, total-is_started ws)
