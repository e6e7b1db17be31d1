-- ===== src/ThreadPool/Invariant/Moves.antt =====
-- What a push and a turn of a worker do to the pool, as equations.
use iu_sp.Base.{
  ℕ, ◌+◌, ◌-◌, ◌<◌, ◌≡◌, refl, subst, ◌&&◌, ◌==◌, false, true, Option, none, some, List, [], ◌∷◌,
  arith, ok, ltb, Bool-cases, inl, inr,
}
use iu_sp.ThreadPool.Pool.{Pool, Turn, max_tasks, push_begin, worker_turn, take_task, should_exit}

abbrev begun : Pool → ℕ → Option ℕ → Option (Pool × ℕ × Option ℕ)
begun p required spawned = some (p, required, spawned)

abbrev Holds : (Pool → ℕ → Option ℕ → Type 0) → Option (Pool × ℕ × Option ℕ) → Type 0
Holds P none = Unit
Holds P (some (p, required, spawned)) = P p required spawned

-- what holds of one outcome of `push_begin` holds of the same outcome under other names
pub retarget :
    (P : Pool → ℕ → Option ℕ → Type 0) {p q : Pool} {r r' : ℕ} {w w' : Option ℕ}
    → begun p r w ≡ begun q r' w'
    → P p r w
    → P q r' w'
retarget P e x = subst (Holds P) e x

-- the first worker, one more, or none
pub data Pushed (p q : Pool) (required : ℕ) (spawned : Option ℕ) : Type 0 where
  first :
      p.has_threads ≡ false
      → begun (record p { has_threads = true }) 1 (some 0) ≡ begun q required spawned
      → Pushed p q required spawned
  more :
      p.has_threads ≡ true
      → p.thread_count < p.max_thread_count
      → begun p (p.thread_count + 1) (some p.thread_count) ≡ begun q required spawned
      → Pushed p q required spawned
  enough :
      p.has_threads ≡ true
      → begun p p.thread_count none ≡ begun q required spawned
      → Pushed p q required spawned

pub push_begin-Pushed :
    (p : Pool) {q : Pool} {required : ℕ} {spawned : Option ℕ}
    → push_begin p ≡ some (q, required, spawned)
    → (p.pending_task_count < max_tasks) × Pushed p q required spawned
unfolding push_begin
push_begin-Pushed p e = elim (Bool-cases (ltb p.pending_task_count max_tasks)) [
  | inr full ↦ ground (arith, e, full)
  | inl room ↦ (
    ground arith,
    elim (Bool-cases p.has_threads) [
      | inr fresh ↦ first fresh (ground (arith, e, room, fresh))
      | inl old ↦
          elim (Bool-cases ((p.idle_thread_count == 0) && ltb p.thread_count p.max_thread_count)) [
            | inl grow ↦ more old (ground arith) (ground (arith, e, room, old, grow))
            | inr stay ↦ enough old (ground (arith, e, room, old, stay))
          ]
    ],
  )
]

abbrev pub took : Pool → List ℕ → Pool
took p rest = record p {
  pending_task_list = rest;
  idle_thread_count = p.idle_thread_count - 1;
  pending_task_count = p.pending_task_count - 1;
  running_task_count = p.running_task_count + 1;
}

pub record Took (p : Pool) (task : ℕ) (q : Pool) : Type 0 where
  pub rest : List ℕ
  pub list : p.pending_task_list ≡ task ∷ rest
  pub pool : q ≡ took p rest
  pub some_pending : 0 < p.pending_task_count

take_task-Took :
    (tasks : List ℕ) (p : Pool) {task : ℕ} {q : Pool}
    → p.pending_task_list ≡ tasks
    → 0 < p.pending_task_count
    → take_task tasks p ≡ ok (Turn.takes task q)
    → Took p task q
unfolding take_task
take_task-Took [] p same some_pending e = cc
take_task-Took (x ∷ tasks) p same some_pending e = record {
  rest = tasks;
  list = cc;
  pool = cc;
  some_pending = some_pending;
}

pub worker_turn-Took :
    (idx : ℕ) (p : Pool) {task : ℕ} {q : Pool}
    → worker_turn idx p ≡ ok (Turn.takes task q)
    → Took p task q
unfolding worker_turn
worker_turn-Took idx p e = elim (Bool-cases (should_exit p.thread_idx_that_should_exit idx)) [
  | inl stop ↦ ground (arith, e, stop)
  | inr stay ↦ elim (Bool-cases (ltb p.pending_task_count 1)) [
    | inl wait ↦ ground (arith, e, stay, wait)
    | inr go ↦
        take_task-Took p.pending_task_list p refl (ground arith) (ground (arith, e, stay, go))
  ]
]
