-- ===== src/Solution/Yields.antt =====
-- How often the sort of a file calls coro_yield, at most.
use iu_sp.Base.{
  ℕ, zero, suc, ◌+◌, ◌-◌, ◌/◌, ◌^◌, ◌≤◌, ◌<◌, ◌≡◌, List, arith, length, Bool-cases, inl, inr, ◌==◌,
  Run, WhenOk, when_ok, when_fault, when_out_of_fuel, WhenOk-any, WhenOk-bind,
}
use iu_sp.Int.{ℤ}
use iu_sp.IntArray.{swap}
use iu_sp.Solution.Timer.{Timer, yield_if_necessary}
use iu_sp.Solution.HeapSort.{largest_of, sift, build_loop, sort_loop, heap_sort}
use iu_sp.Solution.Stream.{Stdio}
use iu_sp.Solution.Stream.Numbers.{IsRewinding, IsAt}
use iu_sp.Solution.Whole.{Job, sort_file, sort_file-heap_sort}

-- `n` calls at most between two states of the timer
pub record Between (n : ℕ) (t u : Timer) : Type 0 where
  pub grows : t.yields ≤ u.yields
  pub few : u.yields ≤ t.yields + n

Between-more :
    {k n : ℕ} (l : ℕ) {t u v : Timer} → k + n ≡ l → Between k t u → Between n u v → Between l t v
Between-more l e b c = record {
  grows = omega (arith, b.grows, c.grows);
  few = omega (arith, b.few, c.few, e);
}

Between-none : (t : Timer) → Between 0 t t
Between-none t = record { grows = omega arith; few = omega arith }

yield_if_necessary-Between :
    (get_now : ℕ → ℕ) (quantum : ℕ) (t : Timer) → Between 1 t (yield_if_necessary get_now quantum t)
unfolding yield_if_necessary
yield_if_necessary-Between get_now quantum t = record { grows = ground arith; few = ground arith }

-- the rounds of the loops of heap_sort, for `i` of their steps
abbrev build_rounds : ℕ → ℕ → ℕ
build_rounds zero size = 0
build_rounds (suc i) size = (size + 1) + build_rounds i size

abbrev sort_rounds : ℕ → ℕ
sort_rounds zero = 0
sort_rounds (suc i) = (suc i + 1) + sort_rounds i

-- the calls of coro_yield for a file of `n` numbers
abbrev pub file_yields : ℕ → ℕ
file_yields n = 2 + build_rounds (n / 2) n + sort_rounds (n - 1)

WhenOk-Between :
    {k n l : ℕ} {t u : Timer} {m : Run (List ℤ × Timer)}
    → k + n ≡ l
    → Between k t u
    → WhenOk (λ r. Between n u r.1) m
    → WhenOk (λ r. Between l t r.1) m
WhenOk-Between e b (when_ok later) = when_ok (Between-more _ e b later)
WhenOk-Between e b when_fault = when_fault
WhenOk-Between e b when_out_of_fuel = when_out_of_fuel

module _ (get_now : ℕ → ℕ) (quantum : ℕ) where
  sift-Between :
      (fuel : ℕ) (a : List ℤ) (bound j : ℕ) (t : Timer)
      → WhenOk (λ r. Between fuel t r.1) (sift get_now quantum fuel a bound j t)
  unfolding sift
  sift-Between zero a bound j t = when_out_of_fuel
  sift-Between (suc fuel) a bound j t = WhenOk-bind (WhenOk-any (largest_of a bound j)) λ largest _.
      elim (Bool-cases (largest == j)) [
        | inl same ↦ rw same (when_ok (record { grows = omega arith; few = omega arith }))
        | inr other ↦ rw other (
            WhenOk-bind (WhenOk-any (swap a j largest)) λ b _.
              WhenOk-Between (omega arith) (yield_if_necessary-Between get_now quantum t)
                (sift-Between fuel b bound largest (yield_if_necessary get_now quantum t)))
      ]

  build_loop-Between :
      (i : ℕ) (a : List ℤ) (size : ℕ) (t : Timer)
      → WhenOk (λ r. Between (build_rounds i size) t r.1) (build_loop get_now quantum i a size t)
  unfolding build_loop
  build_loop-Between zero a size t = when_ok (Between-none t)
  build_loop-Between (suc i) a size t =
      WhenOk-bind (sift-Between (size + 1) a size i t)
        λ r b. WhenOk-Between (omega arith) b (build_loop-Between i r.0 size r.1)

  sort_loop-Between :
      (i : ℕ) (a : List ℤ) (t : Timer)
      → WhenOk (λ r. Between (sort_rounds i) t r.1) (sort_loop get_now quantum i a t)
  unfolding sort_loop
  sort_loop-Between zero a t = when_ok (Between-none t)
  sort_loop-Between (suc i) a t = WhenOk-bind (WhenOk-any (swap a 0 (suc i))) λ b _.
      WhenOk-bind (sift-Between (suc i + 1) b (suc i) 0 t)
        λ r w. WhenOk-Between (omega arith) w (sort_loop-Between i r.0 r.1)

  heap_sort-Between :
      (a : List ℤ) (t : Timer)
      → WhenOk
          (λ r. Between (build_rounds (length a / 2) (length a) + sort_rounds (length a - 1)) t r.1)
          (heap_sort get_now quantum a t)
  unfolding heap_sort
  heap_sort-Between a t =
      WhenOk-bind (build_loop-Between (length a / 2) a (length a) t)
        λ r b. WhenOk-Between (omega arith) b (sort_loop-Between (length a - 1) r.0 r.1)

-- The sort of a file of numbers calls coro_yield at most `file_yields` times.
pub sort_file-Between :
    {Name File : Type 0} (stdio : Stdio Name File) (quantum : ℕ) (j : Job File) (xs : List ℤ)
    → IsRewinding stdio
    → stdio.rewind j.file ≡ j.file
    → IsAt stdio j.file xs
    → length xs < 2 ^ 30
    → WhenOk (λ r. Between (file_yields (length xs)) j.timer r.1) (sort_file stdio quantum j)
sort_file-Between stdio quantum j xs laws start at short =
    let counted = yield_if_necessary j.get_now quantum j.timer in
    let read = yield_if_necessary j.get_now quantum counted in
    let first = yield_if_necessary-Between j.get_now quantum j.timer in
    let second = yield_if_necessary-Between j.get_now quantum counted in
    rw (sort_file-heap_sort stdio quantum j xs laws start at short) (
      WhenOk-Between (omega arith) (Between-more 2 (omega arith) first second)
        (heap_sort-Between j.get_now quantum xs read))
