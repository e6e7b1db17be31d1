-- ===== src/Solution/Timer.antt =====
-- The working time of a coroutine in homework-01/solution.c.
use iu_sp.Base.{ℕ, ◌+◌, ◌-◌, ltb, if◌then◌else◌}

-- The variables behind `total_work_time` and `last_work_timer_start`, in microseconds, with the
-- number of readings of the clock and of calls of `coro_yield` so far.
pub record Timer : Type 0 where
  pub total_work_time : ℕ
  pub last_work_timer_start : ℕ
  pub readings : ℕ
  pub yields : ℕ

-- `yield_if_necessary_record_work_time`. `get_now k` is what the coroutine's reading number `k` of
-- the monotonic clock gives, so that whatever runs while it yields stands in this function.
unfoldable pub yield_if_necessary : (get_now : ℕ → ℕ) → (quantum : ℕ) → Timer → Timer
yield_if_necessary get_now quantum t =
    let work_time = get_now t.readings - t.last_work_timer_start in
    if ltb quantum work_time
    then record {
      total_work_time = t.total_work_time + work_time;
      last_work_timer_start = get_now (t.readings + 1);
      readings = t.readings + 2;
      yields = t.yields + 1;
    }
    else record t { readings = t.readings + 1 }
