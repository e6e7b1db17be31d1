-- ===== src/Solution/Merge.antt =====
-- The merge at the end of `main` of homework-01/solution.c, without the blanks between the numbers.
use iu_sp.Base.{
  ℕ, zero, suc, ◌-◌, ◌^◌, Option, none, some, List, [], ◌∷◌, ◌++◌, length, get_elem?, set,
  if◌then◌else◌, Run, ok, fault, out_of_fuel, ◌>>=◌, or_fault,
}
use iu_sp.Int.{ℤ, pos, ltb_ℤ}

-- INT_MAX
abbrev pub int_max : ℤ
int_max = pos (2 ^ 31 - 1)

-- The search for `min_value` and `min_value_idx`, from array `i` on. An array is what stands from its
-- current index on.
unfoldable pub scan : ℕ → List (List ℤ) → ℤ × Option ℕ → ℤ × Option ℕ
scan i [] best = best
scan i ([] ∷ rests) best = scan (suc i) rests best
scan i ((value ∷ rest) ∷ rests) best =
    scan (suc i) rests (if ltb_ℤ value best.0 then (value, some i) else best)

-- `++current_indices[i]`
unfoldable pub advance : List (List ℤ) → ℕ → Run (List (List ℤ))
advance rests i = or_fault (get_elem? rests i) >>= go
  where
    go : List ℤ → Run (List (List ℤ))
    go [] = fault
    go (x ∷ rest) = ok (set rests i rest)

-- The loop: the numbers that it prints, and what it leaves of the arrays.
unfoldable pub merge_loop : ℕ → List (List ℤ) → Run (List ℤ × List (List ℤ))
merge_loop zero rests = out_of_fuel
merge_loop (suc fuel) rests =
    let best = scan 0 rests (int_max, none) in
    elim best.1 [
      | none ↦ ok ([], rests)
      | some i ↦ advance rests i >>= λ rests'.
          merge_loop fuel rests' >>= λ (out, left). ok (best.0 ∷ out, left)
    ]

abbrev pub flatten : List (List ℤ) → List ℤ
flatten [] = []
flatten (r ∷ rests) = r ++ flatten rests

-- Each round but the last prints a number.
unfoldable pub merge : List (List ℤ) → Run (List ℤ × List (List ℤ))
merge arrays = merge_loop (suc (length (flatten arrays))) arrays
