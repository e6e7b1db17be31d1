-- ===== src/ThreadPool/Invariant/Steps.antt =====
-- Each step of the system keeps the counts.
use iu_sp.Base.{
  ℕ, ◌+◌, ◌≤◌, ◌<◌, ◌≡◌, refl, ap, subst, sym, some, Option, List, [], ◌∷◌, ◌++◌, arith, length,
  get_elem?, set, total, total-set, total-append, length-append, length-set,
}
use iu_sp.ThreadPool.Pool.{Pool, max_tasks, push_end, worker_start, worker_return}
use iu_sp.ThreadPool.System.{Worker, Client, created}
use iu_sp.ThreadPool.Invariant.{
  IsCounted, IsExpecting, is_started, is_idle, is_busy, total-is_started,
}
use iu_sp.ThreadPool.Invariant.Moves.{Pushed, first, more, enough, retarget, Took, took}

-- A step that starts no worker, and leaves no more tasks, keeps what the client waits for.
IsExpecting-kept :
    (client : Client) (p q : Pool) (ws ws' : List Worker)
    → q.thread_count ≡ p.thread_count
    → q.pending_task_count ≤ p.pending_task_count
    → length ws' ≡ length ws
    → IsExpecting client p ws
    → IsExpecting client q ws'
IsExpecting-kept (Client.pushing task required) p q ws ws' same few size e =
    (omega (arith, e.0), omega (arith, e.1))
IsExpecting-kept Client.ready p q ws ws' same few size e = omega arith
IsExpecting-kept Client.gone p q ws ws' same few size e = omega arith
IsExpecting-kept (Client.deleting i) p q ws ws' same few size e = omega arith
IsExpecting-kept (Client.joining i) p q ws ws' same few size e = omega arith

-- A worker starts during a push only.
IsExpecting-start :
    (client : Client) (p : Pool) (ws ws' : List Worker)
    → p.thread_count < length ws
    → length ws' ≡ length ws
    → IsExpecting client p ws
    → IsExpecting client (worker_start p) ws'
unfolding worker_start
IsExpecting-start (Client.pushing task required) p ws ws' less size e = (omega (arith, e.0), e.1)
IsExpecting-start Client.ready p ws ws' less size e = absurd (omega arith)
IsExpecting-start Client.gone p ws ws' less size e = absurd (omega arith)
IsExpecting-start (Client.deleting i) p ws ws' less size e = absurd (omega arith)
IsExpecting-start (Client.joining i) p ws ws' less size e = absurd (omega arith)

-- A worker that is created weighs nothing before it starts.
total-starting :
    (w : Worker → ℕ) (ws : List Worker) (idx : ℕ)
    → w (Worker.starting idx) ≡ 0
    → total w (ws ++ Worker.starting idx ∷ []) ≡ total w ws
unfolding total
total-starting w ws idx e = omega (arith, total-append w ws (Worker.starting idx ∷ []))

append-nil : (ws : List Worker) → ws ++ [] ≡ ws
append-nil [] = refl
append-nil (w ∷ ws) = ap (λ t. w ∷ t) (append-nil ws)

module _ {n : ℕ} {p : Pool} {ws : List Worker} where
  pub push-IsCounted :
      {q : Pool} {required : ℕ} {spawned : Option ℕ} (task : ℕ)
      → 0 < n
      → IsCounted n p ws Client.ready
      → p.pending_task_count < max_tasks
      → Pushed p q required spawned
      → IsCounted n q (ws ++ created spawned) (Client.pushing task required)
  push-IsCounted task some_threads c room (first fresh e) =
      let size : length (ws ++ Worker.starting 0 ∷ []) ≡ length ws + 1 =
        length-append ws (Worker.starting 0 ∷ []) in
      let none = c.none_created fresh in
      retarget (λ q r w. IsCounted n q (ws ++ created w) (Client.pushing task r)) e
        (record {
          started = omega (arith, c.started, total-starting is_started ws 0 refl);
          idle = omega (arith, c.idle, total-starting is_idle ws 0 refl);
          running = omega (arith, c.running, total-starting is_busy ws 0 refl);
          pending = c.pending;
          few = c.few;
          limit = c.limit;
          within = omega (arith, size);
          none_created = λ no. cc;
          expecting = (omega (arith, size), room);
        })
  push-IsCounted task some_threads c room (more old less e) =
      let idx = p.thread_count in
      let size : length (ws ++ Worker.starting idx ∷ []) ≡ length ws + 1 =
        length-append ws (Worker.starting idx ∷ []) in
      retarget (λ q r w. IsCounted n q (ws ++ created w) (Client.pushing task r)) e
        (record {
          started = omega (arith, c.started, total-starting is_started ws idx refl);
          idle = omega (arith, c.idle, total-starting is_idle ws idx refl);
          running = omega (arith, c.running, total-starting is_busy ws idx refl);
          pending = c.pending;
          few = c.few;
          limit = c.limit;
          within = omega (arith, size, c.limit, c.expecting);
          none_created = λ no. cc;
          expecting = (omega (arith, size, c.expecting), room);
        })
  push-IsCounted task some_threads c room (enough old e) =
      retarget (λ q r w. IsCounted n q (ws ++ created w) (Client.pushing task r)) e
        (subst (λ vs. IsCounted n p vs (Client.pushing task p.thread_count)) (sym (append-nil ws))
          (record {
            started = c.started;
            idle = c.idle;
            running = c.running;
            pending = c.pending;
            few = c.few;
            limit = c.limit;
            within = c.within;
            none_created = c.none_created;
            expecting = (c.expecting, room);
          }))

  pub enqueue-IsCounted :
      {task required : ℕ}
      → IsCounted n p ws (Client.pushing task required)
      → p.thread_count ≡ required
      → IsCounted n (push_end task p) ws Client.ready
  unfolding push_end
  enqueue-IsCounted c e = record {
    started = c.started;
    idle = c.idle;
    running = c.running;
    pending = omega (arith, c.pending);
    few = omega (arith, c.expecting.1);
    limit = c.limit;
    within = c.within;
    none_created = c.none_created;
    expecting = omega (arith, c.expecting.0);
  }

  pub start-IsCounted :
      {client : Client} (k : ℕ) {idx : ℕ}
      → IsCounted n p ws client
      → get_elem? ws k ≡ some (Worker.starting idx)
      → IsCounted n (worker_start p) (set ws k (Worker.idle idx)) client
  unfolding worker_start
  start-IsCounted {client} k {idx} c e =
      let w = Worker.idle idx in
      let size = length-set ws k w in
      let begun = total-set is_started ws k w e in
      record {
        started = omega (arith, c.started, begun);
        idle = omega (arith, c.idle, total-set is_idle ws k w e);
        running = omega (arith, c.running, total-set is_busy ws k w e);
        pending = c.pending;
        few = c.few;
        limit = c.limit;
        within = omega (arith, size, c.within);
        none_created = λ no. omega (arith, size, c.none_created no);
        expecting =
            IsExpecting-start client p ws _
              (omega (arith, c.started, begun, size, total-is_started (set ws k w))) size
              c.expecting;
      }

  pub take-IsCounted :
      {client : Client} (k : ℕ) {idx task : ℕ} {q : Pool}
      → IsCounted n p ws client
      → get_elem? ws k ≡ some (Worker.idle idx)
      → Took p task q
      → IsCounted n q (set ws k (Worker.busy idx task)) client
  take-IsCounted {client} k {idx} {task} c e t =
      let w = Worker.busy idx task in
      let size = length-set ws k w in
      let counted : IsCounted n (took p t.rest) (set ws k w) client = record {
        started = omega (arith, c.started, total-set is_started ws k w e);
        idle = omega (arith, c.idle, total-set is_idle ws k w e);
        running = omega (arith, c.running, total-set is_busy ws k w e);
        pending = omega (arith, c.pending, ap length t.list);
        few = omega (arith, c.few);
        limit = c.limit;
        within = omega (arith, size, c.within);
        none_created = λ no. omega (arith, size, c.none_created no);
        expecting = IsExpecting-kept client p _ ws _ refl (omega arith) size c.expecting;
      } in
      rw t.pool counted

  pub exit-IsCounted :
      {client : Client} (k : ℕ) {idx : ℕ}
      → IsCounted n p ws client
      → get_elem? ws k ≡ some (Worker.idle idx)
      → IsCounted n p (set ws k Worker.exited) client
  exit-IsCounted {client} k c e =
      let w = Worker.exited in
      let size = length-set ws k w in
      record {
        started = omega (arith, c.started, total-set is_started ws k w e);
        idle = omega (arith, c.idle, total-set is_idle ws k w e);
        running = omega (arith, c.running, total-set is_busy ws k w e);
        pending = c.pending;
        few = c.few;
        limit = c.limit;
        within = omega (arith, size, c.within);
        none_created = λ no. omega (arith, size, c.none_created no);
        expecting = IsExpecting-kept client p _ ws _ refl (omega arith) size c.expecting;
      }

  pub finish-IsCounted :
      {client : Client} (k : ℕ) {idx task : ℕ}
      → IsCounted n p ws client
      → get_elem? ws k ≡ some (Worker.busy idx task)
      → IsCounted n (worker_return p) (set ws k (Worker.idle idx)) client
  unfolding worker_return
  finish-IsCounted {client} k {idx} c e =
      let w = Worker.idle idx in
      let size = length-set ws k w in
      record {
        started = omega (arith, c.started, total-set is_started ws k w e);
        idle = omega (arith, c.idle, total-set is_idle ws k w e);
        running = omega (arith, c.running, total-set is_busy ws k w e);
        pending = c.pending;
        few = c.few;
        limit = c.limit;
        within = omega (arith, size, c.within);
        none_created = λ no. omega (arith, size, c.none_created no);
        expecting = IsExpecting-kept client p _ ws _ refl (omega arith) size c.expecting;
      }
