-- ===== src/Coro/Running.antt =====
-- homework-01/libcoro.c with the coroutines' functions: a coroutine is what it does from one switch to
-- the next, to a state that all share. No coroutine starts another.
use iu_sp.Base.{
  ℕ, zero, suc, Option, none, some, [], ◌∷◌, ◌++◌, ◌==◌, if◌then◌else◌, Run, ok, out_of_fuel, ◌>>=◌,
}
use iu_sp.Int.{ℤ}
use iu_sp.Coro.{Coro, Coros, count_switch, finish_coro, Wait, coro_sched_wait}

-- How a turn of a coroutine ends: it calls coro_yield, its function returns, or it calls exit. `B` is
-- what the coroutine remembers (`ctx` of struct coro, and its argument), `S` what all share.
pub data CoroTurn (B S : Type 0) : Type 0 where
  yielded : (body : B) (shared : S) → CoroTurn B S
  returned : (value : ℤ) (body : B) (shared : S) → CoroTurn B S
  exited : CoroTurn B S

abbrev pub update_at {ℓ} : {B : Type ℓ} → ℕ → B → (ℕ → B) → ℕ → B
update_at p b f q = if q == p then b else f q

-- the coroutines in the list, with what each remembers and what they share
abbrev pub World : Type 0 → Type 0 → Type 0
World B S = Coros × (ℕ → B) × S

abbrev pub after_switch : {B S : Type 0} → ℕ → Coro → Option (World B S) → Option (World B S)
after_switch p c none = none
after_switch p c (some (ds, g, u)) = some (count_switch p ((p, c) ∷ []) ++ ds, g, u)

-- `resume p c b s` is the turn of the coroutine `c` at `p`, from where `b` left it
module _ {B S : Type 0} (resume : ℕ → Coro → B → S → Run (CoroTurn B S)) where
  -- From the first coroutine on, each yields to the next, until the last yields to the scheduler, or
  -- until one returns, which goes to the scheduler at once; `none` if one exits.
  unfoldable pub run_turns : Coros → (ℕ → B) → S → Run (Option (World B S))
  run_turns [] f s = ok (some ([], f, s))
  run_turns ((p, c) ∷ cs) f s = resume p c (f p) s >>= λ t. elim t [
    | CoroTurn.yielded b u ↦ run_turns cs (update_at p b f) u >>= λ r. ok (after_switch p c r)
    | CoroTurn.returned value b u ↦
        ok (some (finish_coro p value ((p, c) ∷ cs), update_at p b f, u))
    | CoroTurn.exited ↦ ok none
  ]

  -- `while ((c = coro_sched_wait()) != NULL) coro_delete(c);`
  unfoldable pub join_all : ℕ → Coros → (ℕ → B) → S → Run (Option ((ℕ → B) × S))
  join_all zero cs f s = out_of_fuel
  join_all (suc fuel) cs f s = elim (coro_sched_wait cs) [
    | Wait.returns_null ↦ ok (some (f, s))
    | Wait.returns_coro p c left ↦ join_all fuel left f s
    | Wait.yields_to p ↦
        run_turns cs f s >>= λ r. elim r [ none ↦ ok none | some (ds, g, u) ↦ join_all fuel ds g u ]
  ]
