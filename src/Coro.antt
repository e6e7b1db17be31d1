-- ===== src/Coro.antt =====
-- homework-01/libcoro.c: the list of coroutines and the scheduler's choices. A coroutine is known by
-- its address. Links has the pointers of the list, and Switch the saved contexts.
pub mod Waiting
pub mod Turns
pub mod Joined
pub mod Running
pub mod Rounds
pub mod Switch
pub mod Links
pub mod Joining
mod Examples
use iu_sp.Base.{
  ℕ, suc, ◌+◌, Bool, true, false, Option, none, some, List, [], ◌∷◌, ◌==◌, if◌then◌else◌,
}
use iu_sp.Int.{ℤ, pos}

pub record Coro : Type 0 where
  pub ret : ℤ
  pub is_finished : Bool
  pub switch_count : ℕ

-- `coro_list`, each coroutine under its address, in the order of `next`
abbrev pub Coros : Type 0
Coros = List (ℕ × Coro)

-- the coroutine that coro_new adds
unfoldable pub new_coro : Coro
new_coro = record { ret = pos 0; is_finished = false; switch_count = 0 }

unfoldable pub coro_status : Coro → ℤ
coro_status c = c.ret

unfoldable pub coro_switch_count : Coro → ℕ
coro_switch_count c = c.switch_count

unfoldable pub coro_is_finished : Coro → Bool
coro_is_finished c = c.is_finished

unfoldable pub coro_list_add : ℕ → Coro → Coros → Coros
coro_list_add p c cs = (p, c) ∷ cs

unfoldable pub coro_list_delete : ℕ → Coros → Coros
coro_list_delete p [] = []
coro_list_delete p ((q, c) ∷ cs) =
    let rest = coro_list_delete p cs in if q == p then cs else (q, c) ∷ rest

-- `++from->switch_count` of coro_yield_to
unfoldable pub count_switch : ℕ → Coros → Coros
count_switch p [] = []
count_switch p ((q, c) ∷ cs) =
    let rest = count_switch p cs in
    if q == p then (q, record c { switch_count = c.switch_count + 1 }) ∷ cs else (q, c) ∷ rest

-- whom coro_yield of the coroutine at `p` switches to: the next in the list, or the scheduler, `none`
unfoldable pub yield_target : ℕ → Coros → Option ℕ
yield_target p [] = none
yield_target p ((q, c) ∷ cs) = let rest = yield_target p cs in if q == p then next cs else rest
  where
    next : Coros → Option ℕ
    next [] = none
    next ((q, c) ∷ cs) = some q

-- the end of coro_body, with what the function of the coroutine at `p` returned
unfoldable pub finish_coro : ℕ → ℤ → Coros → Coros
finish_coro p value [] = []
finish_coro p value ((q, c) ∷ cs) =
    let rest = finish_coro p value cs in
    if q == p then (q, record c { ret = value; is_finished = true }) ∷ cs else (q, c) ∷ rest

-- the search of coro_sched_wait
unfoldable pub find_finished : Coros → Option (ℕ × Coro)
find_finished [] = none
find_finished ((p, c) ∷ cs) =
    let rest = find_finished cs in if coro_is_finished c then some (p, c) else rest

-- One round of coro_sched_wait: it returns NULL, or a finished coroutine that it takes off the list, or
-- it yields to the first of the list.
pub data Wait : Type 0 where
  returns_null : Wait
  returns_coro : (p : ℕ) (c : Coro) (left : Coros) → Wait
  yields_to : (p : ℕ) → Wait

unfoldable pub coro_sched_wait : Coros → Wait
coro_sched_wait [] = Wait.returns_null
coro_sched_wait ((p, c) ∷ cs) = elim (find_finished ((p, c) ∷ cs)) [
  | none ↦ Wait.yields_to p
  | some (q, d) ↦ Wait.returns_coro q d (coro_list_delete q ((p, c) ∷ cs))
]
