-- ===== src/Coro/Switch/Examples.antt =====
-- Switches between two coroutines, and what the theorem gives of them.
use iu_sp.Base.{
  ◌≡◌, refl, some, none, true, false, [], ◌∷◌, ◌==◌, if◌then◌else◌, ok, ◌>>=◌, Returns,
}
use iu_sp.Int.{pos}
use iu_sp.Coro.{
  Coro, coro_sched_wait, find_finished, coro_is_finished, coro_list_add, count_switch, new_coro,
  yield_target,
}
use iu_sp.Coro.Switch.{
  Place, Machine, Event, jump, coro_yield_to, coro_yield, coro_sched_init, wait_round, enter_body,
  coro_new, step,
}
use iu_sp.Coro.Switch.Steady.{own, IsInside}
use iu_sp.Coro.Switch.Safe.{Reach, started, later, step-Returns}

-- a coroutine as coro_new makes it
abbrev fresh : Coro
fresh = record { ret = pos 0; is_finished = false; switch_count = 0 }

-- main makes two coroutines and waits, the second runs first and yields, and the first returns
runs_first :
    (step (Event.creates 1) coro_sched_init
      >>= step (Event.creates 2)
      >>= step Event.waits
      >>= step Event.yields
      >>= λ m. ok m.coro_this_ptr)
    ≡ ok (some (Place.coroutine 1))
unfolding step coro_new enter_body coro_sched_init wait_round coro_sched_wait find_finished
    coro_is_finished coro_list_add new_coro coro_yield_to jump coro_yield yield_target count_switch
runs_first = refl

-- then the second, with the scheduler's context and its own of coro_new
abbrev entered : Machine
entered = record {
  coro_list = (2, fresh) ∷ (1, fresh) ∷ [];
  coro_this_ptr = some (Place.coroutine 2);
  is_sched_waiting = true;
  running = Place.coroutine 2;
  sched_ctx = some (own Place.scheduler);
  ctx = λ q.
      if q == 2
      then none
      else if q == 2
      then some (own (Place.coroutine 2))
      else if q == 1
      then some (own (Place.coroutine 1))
      else none;
}

entered-Reach : Reach entered
unfolding step coro_new enter_body coro_sched_init wait_round coro_sched_wait find_finished
    coro_is_finished coro_list_add new_coro coro_yield_to jump
entered-Reach =
    later Event.waits
      (later (Event.creates 2) (later (Event.creates 1) started tt refl) (refl, tt) refl) refl refl

step-Returns_example :
    Returns
      (λ n. Reach n × (n.coro_this_ptr ≡ some n.running) × IsInside n n.running)
      (step (Event.returns_value (pos 7)) entered)
step-Returns_example = step-Returns (Event.returns_value (pos 7)) entered-Reach (2, refl)
