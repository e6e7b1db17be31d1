-- ===== src/Coro/Switch/Steady.antt =====
-- What every switch of homework-01/libcoro.c keeps.
use iu_sp.Base.{
  ℕ, ◌≡◌, refl, sym, ap, subst, ◌∙◌, true, false, Option, none, some, ◌∷◌, ◌⊎◌, inl, inr, All,
  arith, ◌==◌, eqb→eq, if◌then◌else◌, Bool-cases, ok, Returns, returns,
}
use iu_sp.Coro.{Wait, new_coro, coro_list_add}
use iu_sp.Coro.Waiting.{
  IsAlive, IsAbsent, IsDistinct, Chosen, nobody, chosen, all_alive, coro_sched_wait-Chosen,
}
use iu_sp.Coro.Joined.{IsDistinct-dropped}
use iu_sp.Coro.Rounds.{IsRunning}
use iu_sp.Coro.Switch.{
  Place, Saved, Machine, jump, coro_yield_to, coro_sched_init, wait_round, enter_body, coro_new,
  Event,
}
use iu_sp.Coro.Switch.Running.{IsRunning-present, IsRunning-kept}

-- a context that leads back to the stack of its struct
abbrev pub own : Place → Saved
own a = record { stack = a; local = a }

-- while a coroutine runs, the scheduler waits and can be jumped to
abbrev pub IsInside : Machine → Place → Type 0
IsInside m Place.scheduler = Unit
IsInside m (Place.coroutine p) =
    (m.is_sched_waiting ≡ true)
    × (m.sched_ctx ≡ some (own Place.scheduler))
    × All IsAlive m.coro_list
    × IsRunning p m.coro_list

pub record IsSteady (m : Machine) : Type 0 where
  pub this : m.coro_this_ptr ≡ some m.running
  pub distinct : IsDistinct m.coro_list
  pub contexts :
      (q : ℕ)
      → IsRunning q m.coro_list
      → (m.running ≡ Place.coroutine q) ⊎ (m.ctx q ≡ some (own (Place.coroutine q)))
  pub inside : IsInside m m.running

-- the calls that the functions may make: main waits, a coroutine yields or returns, and malloc gives
-- a new coroutine an address that is not in use
abbrev pub IsAllowed : Event → Machine → Type 0
IsAllowed Event.waits m = m.running ≡ Place.scheduler
IsAllowed Event.yields m = (p : ℕ) × (m.running ≡ Place.coroutine p)
IsAllowed (Event.returns_value value) m = (p : ℕ) × (m.running ≡ Place.coroutine p)
IsAllowed (Event.creates p) m = IsAbsent p m.coro_list

pub coro_sched_init-IsSteady : IsSteady coro_sched_init
unfolding coro_sched_init
coro_sched_init-IsSteady = record {
  this = refl;
  distinct = tt;
  contexts = λ q h. absurd h;
  inside = tt;
}

-- a machine in which `a` runs, and is what coro_this_ptr points to
pub settle :
    (P : Machine → Type 0) (m : Machine) {a : Place}
    → m.coro_this_ptr ≡ some m.running
    → m.running ≡ a
    → P (record m { coro_this_ptr = some a; running = a })
    → P m
settle P m this running h =
    subst (λ t. P (record m { coro_this_ptr = t })) (sym this)
      (subst (λ r. P (record m { coro_this_ptr = some r; running = r })) (sym running) h)

-- a context that is set, and one that is not
pub set_ctx-other :
    (f : ℕ → Option Saved) (p q : ℕ) (v : Option Saved) {w : Option Saved}
    → (q == p) ≡ false
    → f q ≡ w
    → (if q == p then v else f q) ≡ w
set_ctx-other f p q v away e = rw away e

pub set_ctx_same :
    (f : ℕ → Option Saved) (p q : ℕ) (v : Option Saved)
    → (q == p) ≡ true
    → (if q == p then v else f q) ≡ v
set_ctx_same f p q v here = rw here refl

module _ (m : Machine) (s : IsSteady m) where
  -- main waits
  pub wait_round-IsSteady : m.running ≡ Place.scheduler → Returns IsSteady (wait_round m)
  unfolding wait_round coro_yield_to jump
  wait_round-IsSteady running =
      settle (λ m. Returns IsSteady (wait_round m)) m s.this running
        (round (coro_sched_wait-Chosen m.coro_list s.distinct))
    where
      saved : (q : ℕ) → IsRunning q m.coro_list → m.ctx q ≡ some (own (Place.coroutine q))
      saved q h = elim (s.contexts q h) [
        | inl e ↦ let never : Place.scheduler ≡ Place.coroutine q = sym running ∙ e in cc
        | inr e ↦ e
      ]

      left_over :
          (p q : ℕ)
          → IsRunning q m.coro_list
          → (Place.coroutine p ≡ Place.coroutine q)
            ⊎ ((if q == p then none else m.ctx q) ≡ some (own (Place.coroutine q)))
      left_over p q h = elim (Bool-cases (q == p)) [
        | inl same ↦ inl (ap Place.coroutine (sym (eqb→eq _ _ same)))
        | inr other ↦ inr (set_ctx-other m.ctx p q none other (saved q h))
      ]

      enter :
          (p : ℕ)
          → All IsAlive m.coro_list
          → IsRunning p m.coro_list
          → Returns IsSteady (
              coro_yield_to (Place.coroutine p) (record m {
                coro_this_ptr = some Place.scheduler;
                running = Place.scheduler;
                is_sched_waiting = true;
              }))
      enter p alive here = rw (saved p here) (
          returns (record {
            this = refl;
            distinct = s.distinct;
            contexts = λ q h. left_over p q h;
            inside = (refl, refl, alive, here);
          }))

      round :
          {r : Wait}
          → Chosen m.coro_list r
          → Returns IsSteady (elim r [
            | Wait.returns_null ↦
                ok (record m { coro_this_ptr = some Place.scheduler; running = Place.scheduler })
            | Wait.returns_coro p c left ↦ ok (record m {
              coro_this_ptr = some Place.scheduler;
              running = Place.scheduler;
              coro_list = left;
            })
            | Wait.yields_to p ↦ coro_yield_to (Place.coroutine p) (record m {
              coro_this_ptr = some Place.scheduler;
              running = Place.scheduler;
              is_sched_waiting = true;
            })
          ])
      round (nobody e) = returns (record {
        this = refl;
        distinct = s.distinct;
        contexts = λ q h. inr (saved q h);
        inside = tt;
      })
      round (chosen before p c after e alive done) = returns (record {
        this = refl;
        distinct = IsDistinct-dropped before after (p, c) (subst IsDistinct e s.distinct);
        contexts = λ q h.
            inr (saved q (subst (IsRunning q) (sym e) (IsRunning-kept q before (p, c) after h)));
        inside = tt;
      })
      round (all_alive p c rest e alive) =
          enter p alive (subst (IsRunning p) (sym e) (inl (refl, (subst (All IsAlive) e alive).0)))

  pub coro_new-IsSteady : (p : ℕ) → IsAbsent p m.coro_list → Returns IsSteady (coro_new p m)
  unfolding coro_new enter_body coro_list_add new_coro
  coro_new-IsSteady p absent = returns (record {
    this = s.this;
    distinct = (absent, s.distinct);
    contexts = λ q h. kept q h;
    inside = still m.running s.inside;
  })
    where
      kept :
          (q : ℕ)
          → ((p ≡ q) × (false ≡ false)) ⊎ IsRunning q m.coro_list
          → (m.running ≡ Place.coroutine q)
            ⊎ ((if q == p then some (own (Place.coroutine p)) else m.ctx q)
                ≡ some (own (Place.coroutine q)))
      kept q (inl first) = inr (
          set_ctx_same m.ctx p q (some (own (Place.coroutine p))) (ground (arith, first.0))
          ∙ ap (λ r. some (own (Place.coroutine r))) first.0)
      kept q (inr later) = elim (s.contexts q later) [
        | inl e ↦ inl e
        | inr e ↦ inr (
            set_ctx-other m.ctx p q (some (own (Place.coroutine p)))
              (IsRunning-present q p m.coro_list later absent) e)
      ]

      still :
          (a : Place)
          → IsInside m a
          → IsInside (record m { coro_list = (p, new_coro) ∷ m.coro_list }) a
      still Place.scheduler h = tt
      still (Place.coroutine r) h = (h.0, h.1, (refl, h.2), inr h.3)
