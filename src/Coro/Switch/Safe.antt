-- ===== src/Coro/Switch/Safe.antt =====
-- The calls of homework-01/libcoro.c, one after another.
use iu_sp.Base.{◌≡◌, sym, subst, ◌∙◌, some, ok, Returns, returns, Returns-inv}
use iu_sp.Coro.Switch.{Place, Machine, coro_sched_init, leave_body, Event, step}
use iu_sp.Coro.Switch.Steady.{
  IsInside, IsSteady, IsAllowed, coro_sched_init-IsSteady, wait_round-IsSteady, coro_new-IsSteady,
}
use iu_sp.Coro.Switch.Yielding.{coro_yield-IsSteady, leave_body-IsSteady}

step-IsSteady :
    (m : Machine) → IsSteady m → (e : Event) → IsAllowed e m → Returns IsSteady (step e m)
unfolding step
step-IsSteady m s Event.waits running = wait_round-IsSteady m s running
step-IsSteady m s Event.yields (p, running) = coro_yield-IsSteady m s p running
step-IsSteady m s (Event.returns_value value) (p, running) =
    subst
      (λ a.
        Returns IsSteady
          (elim a [ Place.scheduler ↦ ok m | Place.coroutine p ↦ leave_body p value m ]))
      (sym running) (leave_body-IsSteady m s p running value)
step-IsSteady m s (Event.creates p) absent = coro_new-IsSteady m s p absent

-- what the calls that the functions may make lead to, from coro_sched_init on
pub data Reach : Machine → Type 0 where
  started : Reach coro_sched_init
  later : {m n : Machine} (e : Event) → Reach m → IsAllowed e m → step e m ≡ ok n → Reach n

pub Reach-IsSteady : {m : Machine} → Reach m → IsSteady m
Reach-IsSteady started = coro_sched_init-IsSteady
Reach-IsSteady (later {m} {n} e r allowed done) =
    let (k, same, steady) = Returns-inv (step-IsSteady m (Reach-IsSteady r) e allowed) in
    let both : ok k ≡ ok n = sym same ∙ done in
    let equal : k ≡ n = cc in subst IsSteady equal steady

-- Whatever main and the coroutines call, where main waits, a coroutine yields or returns, and a new one
-- gets an address that none in the list has: the call ends without a jump to a stale context or through
-- a NULL pointer, and a coroutine that returns finds the scheduler waiting. Afterwards coro_this is
-- the one that runs, and while a coroutine runs, the scheduler waits, and all in the list are alive.
pub step-Returns :
    {m : Machine} (e : Event)
    → Reach m
    → IsAllowed e m
    → Returns (λ n. Reach n × (n.coro_this_ptr ≡ some n.running) × IsInside n n.running) (step e m)
step-Returns {m} e r allowed =
    let (n, done, steady) = Returns-inv (step-IsSteady m (Reach-IsSteady r) e allowed) in
    subst (Returns _) (sym done) (returns (later e r allowed done, steady.this, steady.inside))
