-- ===== src/Solution/HeapSort.antt =====
-- `heap_sort` of homework-01/solution.c. `int left` and `int right` overflow from the index
-- `2 ^ 30 - 1` on, which is undefined behaviour and a fault here.
pub mod Order
pub mod Sift
pub mod Sorted
use iu_sp.Base.{
  ℕ, zero, suc, ◌+◌, ◌-◌, ◌*◌, ◌/◌, ◌^◌, Bool, List, ltb, ◌==◌, if◌then◌else◌, length, Run, ok,
  fault, out_of_fuel, ◌>>=◌,
}
use iu_sp.Int.{ℤ, ltb_ℤ}
use iu_sp.IntArray.{load, swap}
use iu_sp.Solution.Timer.{Timer, yield_if_necessary}

-- `if (child < bound && array[child] > array[largest]) largest = child;`
unfoldable pub larger : List ℤ → ℕ → ℕ → ℕ → Run ℕ
larger a bound child largest =
    let test =
      load a child >>= λ x. load a largest >>= λ y. ok (if ltb_ℤ y x then child else largest) in
    if ltb child bound then test else ok largest

unfoldable pub largest_of : List ℤ → ℕ → ℕ → Run ℕ
largest_of a bound j =
    let test = larger a bound (2 * j + 1) j >>= λ largest. larger a bound (2 * j + 2) largest in
    if ltb (2 * j + 2) (2 ^ 31) then test else fault

module _ (get_now : ℕ → ℕ) (quantum : ℕ) where
  -- The `while` loop that both `for` loops hold, with `size` or `i` for the bound.
  unfoldable pub sift : ℕ → List ℤ → ℕ → ℕ → Timer → Run (List ℤ × Timer)
  sift zero a bound j t = out_of_fuel
  sift (suc fuel) a bound j t = largest_of a bound j >>= λ largest.
      let rest = swap a j largest >>= λ b.
      sift fuel b bound largest (yield_if_necessary get_now quantum t) in
      if largest == j then ok (a, t) else rest

  -- the first loop, from `i - 1` down to 0
  unfoldable pub build_loop : ℕ → List ℤ → ℕ → Timer → Run (List ℤ × Timer)
  build_loop zero a size t = ok (a, t)
  build_loop (suc i) a size t = sift (size + 1) a size i t >>= λ (b, u). build_loop i b size u

  -- the second loop, from `i` down to 1
  unfoldable pub sort_loop : ℕ → List ℤ → Timer → Run (List ℤ × Timer)
  sort_loop zero a t = ok (a, t)
  sort_loop (suc i) a t =
      swap a 0 (suc i) >>= λ b. sift (suc i + 1) b (suc i) 0 t >>= λ (c, u). sort_loop i c u

  -- `size` is the length of the array
  unfoldable pub heap_sort : List ℤ → Timer → Run (List ℤ × Timer)
  heap_sort a t =
      build_loop (length a / 2) a (length a) t >>= λ (b, u). sort_loop (length a - 1) b u
