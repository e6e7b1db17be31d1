-- ===== src/Solution/Examples.antt =====
-- Runs of the sort, the merge and the arguments, and what their theorems give of them.
use mathlib.Core.List.{Perm}
use iu_sp.Base.{
  All, ◌++◌, ◌<◌, length, Bool, ◌==◌, ℕ, ◌*◌, ◌≡◌, refl, List, [], ◌∷◌, arith, ok, Returns, ◌>>=◌,
}
use iu_sp.Int.{◌≤ℤ◌, ℤ, pos, negsuc}
use iu_sp.Solution.Merge.{merge, merge_loop, scan, advance, flatten, int_max}
use iu_sp.Solution.Merged.{IsAbove, merge-Perm}
use iu_sp.Solution.Arguments.{
  Options, parse_arguments, parse_options, default_options, is_usable, minus_two, coroutine_quantum,
}
use iu_sp.Solution.ArgumentLaws.{parse_arguments-bounds}
use iu_sp.Solution.Ascending.{merge-IsSorted, IsAscending→IsSorted}
use iu_sp.IntArray.{load, swap}
use iu_sp.Solution.Timer.{Timer, yield_if_necessary}
use iu_sp.Solution.HeapSort.{heap_sort, build_loop, sort_loop, sift, largest_of, larger}
use iu_sp.Solution.HeapSort.Sorted.{IsSorted}
use iu_sp.Solution.HeapSort.Sorted.{heap_sort-IsSorted}

-- two microseconds between readings
abbrev get_now : ℕ → ℕ
get_now k = 2 * k

abbrev numbers : List ℤ
numbers = pos 3 ∷ negsuc 4 ∷ pos 7 ∷ pos 3 ∷ pos 1 ∷ []

abbrev timer : Timer
timer = record { total_work_time = 0; last_work_timer_start = 0; readings = 1; yields = 0 }

sorted_numbers :
    (heap_sort get_now 3 numbers timer >>= λ r. ok r.0)
    ≡ ok (negsuc 4 ∷ pos 1 ∷ pos 3 ∷ pos 3 ∷ pos 7 ∷ [])
unfolding heap_sort build_loop sort_loop sift largest_of larger yield_if_necessary load swap
sorted_numbers = refl

heap_sort-IsSorted_example :
    Returns (λ r. IsSorted r.0 × Perm r.0 numbers) (heap_sort get_now 3 numbers timer)
heap_sort-IsSorted_example = heap_sort-IsSorted get_now 3 numbers timer (omega arith)

-- an INT_MAX in the middle of the input is lost with what it hides
abbrev arrays : List (List ℤ)
arrays = (pos 2 ∷ int_max ∷ []) ∷ (negsuc 0 ∷ pos 5 ∷ []) ∷ []

merged_arrays : merge arrays ≡ ok (negsuc 0 ∷ pos 2 ∷ pos 5 ∷ [], (int_max ∷ []) ∷ [] ∷ [])
unfolding merge merge_loop scan advance
merged_arrays = refl

merge-Perm_example :
    Returns
      (λ r. Perm (r.0 ++ flatten r.1) (flatten arrays) × All (IsAbove int_max) r.1)
      (merge arrays)
merge-Perm_example = merge-Perm arrays

-- two sorted arrays
abbrev sorted_arrays : List (List ℤ)
sorted_arrays = (negsuc 2 ∷ pos 4 ∷ []) ∷ (pos 1 ∷ pos 9 ∷ []) ∷ []

sorted_arrays-IsSorted : All IsSorted sorted_arrays
sorted_arrays-IsSorted = (
  IsAscending→IsSorted (negsuc 2 ∷ pos 4 ∷ []) ((omega arith, tt), (tt, tt)),
  (IsAscending→IsSorted (pos 1 ∷ pos 9 ∷ []) ((omega arith, tt), (tt, tt)), tt),
)

merge-IsSorted_example : Returns (λ r. IsSorted r.0) (merge sorted_arrays)
merge-IsSorted_example = merge-IsSorted sorted_arrays sorted_arrays-IsSorted

-- `-n` is the word 0, `-t` is 1, and any other word is the number it stands for
abbrev is_n : ℕ → Bool
is_n w = w == 0

abbrev is_t : ℕ → Bool
is_t w = w == 1

abbrev options : Options
options = record { coroutines_count = pos 7; target_latency = pos 90; files_count = pos 2 }

-- `-n 7 -t 90 200 201`
abbrev words : List ℕ
words = 0 ∷ 7 ∷ 1 ∷ 90 ∷ 200 ∷ 201 ∷ []

parse_arguments-bounds_example :
    (pos 1 ≤ℤ options.coroutines_count)
    × (0 < coroutine_quantum options)
    × (pos 1 ≤ℤ options.files_count)
    × (options.files_count ≤ℤ pos (length words))
unfolding parse_arguments parse_options default_options is_usable minus_two
parse_arguments-bounds_example = parse_arguments-bounds is_n is_t pos words {o = options} refl
