-- ===== src/Coro/Switch.antt =====
-- The switches of homework-01/libcoro.c: whose stack runs, which contexts can be jumped to, and the
-- static variables `coro_this_ptr` and `is_sched_waiting`. A jump lands in the frame that saved the
-- context; once it has, the frame returns, and the context is stale until it is saved again.
pub mod Running
pub mod Steady
pub mod Yielding
pub mod Safe
mod Examples
use iu_sp.Base.{
  ℕ, ◌≡◌, Bool, true, false, Option, none, some, List, [], ◌∷◌, ◌==◌, if◌then◌else◌, Run, ok,
  or_fault, ◌>>=◌, ◌>>◌, assert,
}
use iu_sp.Int.{ℤ}
use iu_sp.Coro.{
  Coros, new_coro, coro_list_add, count_switch, yield_target, finish_coro, Wait, coro_sched_wait,
}

-- a `struct coro`, and the stack that goes with it: `coro_sched`, or one that coro_new made
pub data Place : Type 0 where
  scheduler : Place
  coroutine : (p : ℕ) → Place

-- a saved context: the stack it leads to, and the variable `from` or `c` of the frame that saved it
pub record Saved : Type 0 where
  pub stack : Place
  pub local : Place

pub record Machine : Type 0 where
  pub coro_list : Coros
  pub coro_this_ptr : Option Place
  pub is_sched_waiting : Bool
  pub running : Place
  pub sched_ctx : Option Saved
  pub ctx : ℕ → Option Saved

abbrev pub set_ctx : Place → Option Saved → Machine → Machine
set_ctx scheduler saved m = record m { sched_ctx = saved }
set_ctx (coroutine p) saved m = record m { ctx = λ q. if q == p then saved else m.ctx q }

abbrev pub get_ctx : Place → Machine → Option Saved
get_ctx scheduler m = m.sched_ctx
get_ctx (coroutine p) m = m.ctx p

-- `++from->switch_count`, where that of the scheduler is left out
abbrev pub count_from : Place → Coros → Coros
count_from scheduler cs = cs
count_from (coroutine p) cs = count_switch p cs

-- The end of coro_sched_wait's turn follows when its frame goes on.
abbrev pub land : Saved → Machine → Machine
land s m = record m {
  coro_this_ptr = some s.local;
  running = s.stack;
  is_sched_waiting = elim s.stack [ scheduler ↦ false | coroutine p ↦ m.is_sched_waiting ];
}

-- `siglongjmp(to->ctx, 1)`
unfoldable pub jump : Place → Machine → Run Machine
jump to m = or_fault (get_ctx to m) >>= λ s. ok (land s (set_ctx to none m))

unfoldable pub coro_yield_to : Place → Machine → Run Machine
coro_yield_to to m = or_fault m.coro_this_ptr >>= λ from. jump to (
    set_ctx from (some (record { stack = m.running; local = from }))
      (record m { coro_list = count_from from m.coro_list }))

abbrev pub place_of : Option ℕ → Place
place_of none = scheduler
place_of (some q) = coroutine q

-- whom `from` yields to: `coro_sched` has no next
abbrev pub next_of : Place → Coros → Place
next_of scheduler cs = scheduler
next_of (coroutine p) cs = place_of (yield_target p cs)

unfoldable pub coro_yield : Machine → Run Machine
coro_yield m = or_fault m.coro_this_ptr >>= λ from. coro_yield_to (next_of from m.coro_list) m

unfoldable pub coro_sched_init : Machine
coro_sched_init = record {
  coro_list = [];
  coro_this_ptr = some scheduler;
  is_sched_waiting = false;
  running = scheduler;
  sched_ctx = none;
  ctx = λ p. none;
}

-- a round of the loop of coro_sched_wait
unfoldable pub wait_round : Machine → Run Machine
wait_round m = elim (coro_sched_wait m.coro_list) [
  | Wait.returns_null ↦ ok m
  | Wait.returns_coro p c left ↦ ok (record m { coro_list = left })
  | Wait.yields_to p ↦ coro_yield_to (coroutine p) (record m { is_sched_waiting = true })
]

-- The signal handler coro_body up to its jump back into coro_new, on the stack of the coroutine at `p`.
unfoldable pub enter_body : ℕ → Machine → Run Machine
enter_body p m = or_fault m.coro_this_ptr >>= λ c. ok (
    set_ctx c (some (record { stack = coroutine p; local = c }))
      (record m { coro_this_ptr = none }))

-- coro_new, for the address that malloc gives
unfoldable pub coro_new : ℕ → Machine → Run Machine
coro_new p m = enter_body p (record m { coro_this_ptr = some (coroutine p) }) >>= λ m'.
    ok (record m' {
      coro_this_ptr = m.coro_this_ptr;
      coro_list = coro_list_add p new_coro m'.coro_list;
    })

-- the end of coro_body on the stack of `p`, whose function returned `value`
unfoldable pub leave_body : ℕ → ℤ → Machine → Run Machine
leave_body p value m =
    assert m.is_sched_waiting
    >> jump scheduler (record m { coro_list = finish_coro p value m.coro_list })

-- what the program does next: main waits, a coroutine yields or returns, or either makes a coroutine
pub data Event : Type 0 where
  waits yields : Event
  returns_value : (value : ℤ) → Event
  creates : (p : ℕ) → Event

unfoldable pub step : Event → Machine → Run Machine
step waits m = wait_round m
step yields m = coro_yield m
step (returns_value value) m = elim m.running [
  | scheduler ↦ ok m
  | coroutine p ↦ leave_body p value m
]
step (creates p) m = coro_new p m
