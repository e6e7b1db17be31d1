-- ===== src/Coro/Examples.antt =====
-- A round of the scheduler, and what its theorem gives of it.
use mathlib.Core.List.{Perm}
use iu_sp.Coro.Turns.{turns, wait_all}
use iu_sp.Coro.Joined.{outcomes, wait_all-Perm}
use iu_sp.Base.{ℕ, ◌+◌, arith, total, ok, Returns, ◌≡◌, refl, true, some, [], ◌∷◌}
use iu_sp.Int.{ℤ, pos}
use iu_sp.Coro.{
  Coros, Wait, coro_sched_wait, find_finished, coro_is_finished, coro_list_delete, new_coro,
  coro_list_add, finish_coro, yield_target, count_switch, coro_status,
}
use iu_sp.Coro.Waiting.{Chosen, coro_sched_wait-Chosen}

-- three coroutines, the second added of which has finished with 7
abbrev coros : Coros
coros =
    finish_coro 2 (pos 7)
      (coro_list_add 3 new_coro (coro_list_add 2 new_coro (coro_list_add 1 new_coro [])))

second_returned :
    coro_sched_wait coros
    ≡ Wait.returns_coro 2
        (record new_coro { ret = pos 7; is_finished = true })
        ((3, new_coro) ∷ (1, new_coro) ∷ [])
unfolding coro_sched_wait find_finished coro_is_finished coro_list_delete new_coro coro_list_add
    finish_coro
second_returned = refl

third_yields : yield_target 3 coros ≡ some 2
unfolding yield_target coro_list_add finish_coro new_coro
third_yields = refl

coro_sched_wait-Chosen_example : Chosen coros (coro_sched_wait coros)
unfolding coro_list_add finish_coro new_coro
coro_sched_wait-Chosen_example =
    coro_sched_wait-Chosen coros ((refl, (refl, tt)), ((refl, tt), (tt, tt)))

-- the coroutine at `p` yields `p` times and returns `p + 5`
abbrev result : ℕ → ℤ
result p = pos (p + 5)

all_waited : wait_all result 10 coros (λ p. p) ≡ ok ((2, pos 7) ∷ (1, pos 6) ∷ (3, pos 8) ∷ [])
unfolding wait_all turns coro_sched_wait find_finished coro_is_finished coro_list_delete
    coro_list_add finish_coro new_coro count_switch coro_status
all_waited = refl

wait_all-Perm_example :
    Returns (λ out. Perm out (outcomes result coros)) (wait_all result 10 coros (λ p. p))
unfolding coro_list_add finish_coro new_coro total
wait_all-Perm_example =
    wait_all-Perm result 10 coros (λ p. p) ((refl, (refl, tt)), ((refl, tt), (tt, tt)))
      ((λ e. ground (arith, e)), ((λ e. refl), ((λ e. ground (arith, e)), tt))) (omega arith)
