-- ===== src/Solution/Whole.antt =====
-- A round of the loop of `coroutine_func_f` of homework-01/solution.c behind its fopen, and what the merge
-- of `main` comes to where the arrays are sorted.
use mathlib.Core.List.{
  Perm, Mem, not-mem-nil, eq-or-mem_of_mem-cons, mem-cons_self, mem-append_right, append-nil,
}
use mathlib.Core.Logic.{∥∥₁_elim}
use mathlib.Core.HLevel.{⊥_prop}
use mathlib.Core.List.Perm
use iu_sp.Base.{
  ℕ, ◌+◌, ◌-◌, ◌^◌, ◌<◌, ◌∙◌, length, ◌≡◌, refl, sym, subst, true, false, List, [], ◌∷◌, ◌++◌,
  arith, Run, ◌>>=◌, Returns, Returns-map, Returns-both, All, Bool-cases, inl, inr,
}
use iu_sp.Int.{ℤ, ltb_ℤ}
use iu_sp.Solution.Stream.{Stdio, count_numbers, read_numbers}
use iu_sp.Solution.Stream.Numbers.{IsRewinding, IsAt, count_numbers-IsAt, read_numbers-IsAt}
use iu_sp.Solution.Timer.{Timer, yield_if_necessary}
use iu_sp.Solution.HeapSort.{heap_sort}
use iu_sp.Solution.HeapSort.Sorted.{IsSorted}
use iu_sp.Solution.Merge.{int_max, merge, flatten}
use iu_sp.Solution.Merged.{IsAbove, merge-Perm}
use iu_sp.Solution.Ascending.{merge-IsSorted}

-- an open file, with the clock and the timer of the coroutine that sorts it
pub record Job (File : Type 0) : Type 0 where
  pub file : File
  pub get_now : ℕ → ℕ
  pub timer : Timer

module _ {Name File : Type 0} (stdio : Stdio Name File) (quantum : ℕ) where
  -- A round of the loop, from the count of the numbers to the end of their sort. Each coroutine has
  -- a stream and an array of its own, and a malloc that succeeds.
  unfoldable pub sort_file : Job File → Run (List ℤ × Timer)
  sort_file j = count_numbers stdio (2 ^ 31 - 1) 0 j.file >>= λ (numbers_count, end).
      let counted = yield_if_necessary j.get_now quantum j.timer in
      read_numbers stdio numbers_count (stdio.rewind end) >>= λ numbers.
      let read = yield_if_necessary j.get_now quantum counted in
      heap_sort j.get_now quantum numbers read

  -- What it sorts of a file of numbers is all of them.
  pub sort_file-heap_sort :
      (j : Job File) (xs : List ℤ)
      → IsRewinding stdio
      → stdio.rewind j.file ≡ j.file
      → IsAt stdio j.file xs
      → length xs < 2 ^ 30
      → sort_file j
        ≡ heap_sort j.get_now quantum xs
            (yield_if_necessary j.get_now quantum (yield_if_necessary j.get_now quantum j.timer))
  unfolding sort_file
  sort_file-heap_sort j xs laws start at short =
      let (end, counted, back) =
        count_numbers-IsAt stdio laws (2 ^ 31 - 1) 0 j.file xs at (omega (arith, short)) in
      let whole : 0 + length xs ≡ length xs = omega arith in
      rw (counted, back ∙ start, whole, read_numbers-IsAt stdio j.file xs at) refl

-- numbers below INT_MAX
abbrev pub IsSmall : List ℤ → Type 0
IsSmall xs = All (λ y. ltb_ℤ y int_max ≡ true) xs

not_in_small : (x : ℤ) (xs : List ℤ) → IsSmall xs → ltb_ℤ x int_max ≡ false → Mem x xs → ⊥
not_in_small x [] small big m = not-mem-nil m
not_in_small x (y ∷ ys) small big m = ∥∥₁_elim (eq-or-mem_of_mem-cons m) ⊥_prop λ c. elim c [
  | inl e ↦
      let other : ltb_ℤ x int_max ≡ true = subst (λ z. ltb_ℤ z int_max ≡ true) (sym e) small.0 in
      ground (arith, other, big)
  | inr later ↦ not_in_small x ys small.1 big later
]

small-mem : (x : ℤ) (xs : List ℤ) → IsSmall xs → Mem x xs → ltb_ℤ x int_max ≡ true
small-mem x xs small m = elim (Bool-cases (ltb_ℤ x int_max)) [
  | inl e ↦ e
  | inr e ↦ absurd (not_in_small x xs small e m)
]

-- nothing is left of arrays without an INT_MAX
nothing_left :
    (left : List (List ℤ))
    → All (IsAbove int_max) left
    → ((x : ℤ) → Mem x (flatten left) → ltb_ℤ x int_max ≡ true)
    → flatten left ≡ []
nothing_left [] above small = refl
nothing_left ([] ∷ rests) above small = nothing_left rests above.1 small
nothing_left ((x ∷ xs) ∷ rests) above small =
    let less = small x mem-cons_self in absurd (ground (arith, less, above.0))

-- The merge of sorted arrays writes all of their numbers, where these are below INT_MAX.
pub merge-whole :
    (arrays : List (List ℤ)) (numbers : List ℤ)
    → IsSmall numbers
    → All IsSorted arrays
    → Perm (flatten arrays) numbers
    → Returns (λ r. IsSorted r.0 × Perm r.0 numbers) (merge arrays)
merge-whole arrays numbers small sorted p =
    Returns-map (Returns-both (merge-IsSorted arrays sorted) (merge-Perm arrays))
      λ r q. (q.0, all_written r.0 r.1 q.1.0 q.1.1)
  where
    all_written :
        (out : List ℤ) (left : List (List ℤ))
        → Perm (out ++ flatten left) (flatten arrays)
        → All (IsAbove int_max) left
        → Perm out numbers
    all_written out left q above =
        let whole = Perm.trans q p in
        let empty =
          nothing_left left above
            (λ x m. small-mem x numbers small ((Perm.mem_iff whole).0 (mem-append_right out m))) in
        subst (λ l. Perm l numbers) (append-nil out)
          (subst (λ l. Perm (out ++ l) numbers) empty whole)
