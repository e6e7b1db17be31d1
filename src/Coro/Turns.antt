-- ===== src/Coro/Turns.antt =====
-- The coroutines' turns, and the loop of homework-01/solution.c that waits for them all:
-- `while ((c = coro_sched_wait()) != NULL) coro_delete(c);`. A coroutine is what its function does to
-- the scheduler: it yields a number of times and then returns. No coroutine starts another.
use iu_sp.Base.{
  ℕ, zero, suc, ◌-◌, List, [], ◌∷◌, ◌++◌, ◌==◌, if◌then◌else◌, Run, ok, out_of_fuel, ◌>>=◌,
}
use iu_sp.Int.{ℤ}
use iu_sp.Coro.{Coros, coro_status, count_switch, finish_coro, Wait, coro_sched_wait}

-- how often each coroutine has yet to yield
abbrev pub Work : Type 0
Work = ℕ → ℕ

abbrev pub spend : ℕ → Work → Work
spend p w q = if q == p then w q - 1 else w q

-- `result p` is what the function of the coroutine at `p` returns
module _ (result : ℕ → ℤ) where
  -- From the first coroutine on, each yields to the next, until the last yields to the scheduler, or
  -- until one returns, which goes to the scheduler at once.
  unfoldable pub turns : Coros → Work → Coros × Work
  turns [] w = ([], w)
  turns ((p, c) ∷ cs) w =
      let later = turns cs (spend p w) in
      if w p == 0
      then (finish_coro p (result p) ((p, c) ∷ cs), w)
      else (count_switch p ((p, c) ∷ []) ++ later.0, later.1)

  -- the coroutines that the loop gets, with their status, in order
  unfoldable pub wait_all : ℕ → Coros → Work → Run (List (ℕ × ℤ))
  wait_all zero cs w = out_of_fuel
  wait_all (suc fuel) cs w = elim (coro_sched_wait cs) [
    | Wait.returns_null ↦ ok []
    | Wait.returns_coro p c left ↦ wait_all fuel left w >>= λ out. ok ((p, coro_status c) ∷ out)
    | Wait.yields_to p ↦ wait_all fuel (turns cs w).0 (turns cs w).1
  ]
