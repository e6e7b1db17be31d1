-- ===== src/Solution/Program/Holding.antt =====
-- The steps by which a coroutine of homework-01/solution.c picks, holds and stores a file.
use iu_sp.Base.{
  ℕ, ◌+◌, ◌≤◌, ◌<◌, ◌≡◌, refl, sym, ◌∙◌, subst, false, Option, some, List, ◌⊎◌, inl, inr, arith,
  ◌==◌, length, get_elem?, length-set, Bool-cases, eqb→eq, ltb, ltb→lt, ltb→le, lt-get_elem?,
}
use iu_sp.Int.{ℤ}
use iu_sp.Coro.Running.{update_at}
use iu_sp.Coro.Rounds.{update_at_other, update_at_self}
use iu_sp.Solution.Program.{Phase, Context, Shared, new_context, store_array}
use iu_sp.Solution.Program.Files.{
  IsRight, IsProper, IsKept, IsKept-update_at, store_array_self, IsStored-store_array,
  store_array-IsRight, IsHolding, IsStored, IsEnded,
}

module _ {Name : Type 0} (read_file : Name → Option (List ℤ)) (filenames : List Name) where
  -- where `p` holds nothing, its next step
  module _ (p : ℕ) (f : ℕ → Context) (s : Shared)
      (k : IsKept read_file filenames (update_at p new_context f) s) where
    free : (i : ℕ) → IsHolding i (update_at p new_context f p).phase → ⊥
    unfolding new_context
    free i = subst (λ w. IsHolding i w.phase → ⊥) (sym (update_at_self p new_context f)) λ h. h

    IsKept-taken :
        (b : Context) (u : Shared)
        → IsProper read_file filenames b b.phase
        → (IsEnded b.phase → u.file_to_sort_idx ≡ length filenames)
        → s.file_to_sort_idx ≤ u.file_to_sort_idx
        → u.file_to_sort_idx ≤ length filenames
        → length u.sorted_arrays ≡ length filenames
        → ((i : ℕ) (xs : List ℤ)
            → get_elem? u.sorted_arrays i ≡ some (some xs)
            → IsRight read_file filenames i xs)
        → ((i : ℕ) → IsStored i s → IsStored i u)
        → ((i : ℕ)
            → s.file_to_sort_idx ≤ i
            → i < u.file_to_sort_idx
            → IsStored i u ⊎ IsHolding i b.phase)
        → IsKept read_file filenames (update_at p b f) u
    IsKept-taken b u proper finished on bound size right keeps new =
        IsKept-update_at read_file filenames (update_at p new_context f) f s u p b k
          (update_at_other p new_context f) on bound size right proper finished keeps
          λ i lt. elim (Bool-cases (ltb i s.file_to_sort_idx)) [
            | inl before ↦ inl (ltb→lt _ _ before, free i)
            | inr after ↦ inr (new i (ltb→le _ _ after) lt)
          ]

    -- the file in turn is picked by a coroutine that yields
    pub IsKept-picked :
        (b : Context)
        → s.file_to_sort_idx < length filenames
        → IsProper read_file filenames b b.phase
        → (IsEnded b.phase → ⊥)
        → IsHolding s.file_to_sort_idx b.phase
        → IsKept read_file filenames
            (update_at p b f)
            (record s { file_to_sort_idx = s.file_to_sort_idx + 1 })
    IsKept-picked b lt proper going holds =
        IsKept-taken b (record s { file_to_sort_idx = s.file_to_sort_idx + 1 }) proper
          (λ e. absurd (going e)) (omega arith) (omega arith) k.size k.right (λ i h. h)
          λ i from below.
            let e : s.file_to_sort_idx ≡ i = omega arith in
            inr (subst (λ j. IsHolding j b.phase) e holds)

    -- it is picked, sorted and stored in the same turn
    pub IsKept-stored :
        (xs : List ℤ)
        → IsRight read_file filenames s.file_to_sort_idx xs
        → IsKept read_file filenames (update_at p new_context f) (
            store_array s.file_to_sort_idx xs
              (record s { file_to_sort_idx = s.file_to_sort_idx + 1 }))
    unfolding store_array new_context
    IsKept-stored xs mine =
        let picked = record s { file_to_sort_idx = s.file_to_sort_idx + 1 } in
        let i = s.file_to_sort_idx in
        let lt = lt-get_elem? filenames i mine.named in
        IsKept-taken new_context (store_array i xs picked) refl (λ e. absurd e) (omega arith)
          (omega (arith, lt)) (length-set s.sorted_arrays i (some xs) ∙ k.size)
          (store_array-IsRight read_file filenames i xs picked k.size mine k.right)
          (IsStored-store_array read_file filenames i xs picked k.size mine)
          λ j from below.
            let e : i ≡ j = omega arith in
            inl (
              subst (λ j. IsStored j (store_array i xs picked)) e
                (store_array_self read_file filenames i xs picked k.size mine))

    pub IsKept-ended :
        (b : Context)
        → IsProper read_file filenames b b.phase
        → s.file_to_sort_idx ≡ length filenames
        → IsKept read_file filenames (update_at p b f) s
    IsKept-ended b proper whole =
        IsKept-taken b s proper (λ e. whole) (omega arith) (omega arith) k.size k.right (λ i h. h)
          λ i from below. absurd (omega arith)

  module _ (p : ℕ) (f : ℕ → Context) (s : Shared) (k : IsKept read_file filenames f s) where
    -- before its first turn it holds nothing
    pub IsKept-starting :
        (f p).phase ≡ Phase.starting → IsKept read_file filenames (update_at p new_context f) s
    unfolding new_context
    IsKept-starting e =
        IsKept-update_at read_file filenames f f s s p new_context k (λ q away. refl) (omega arith)
          k.bound k.size k.right refl (λ x. absurd x) (λ j h. h)
          λ j lt. inl (lt, subst (λ phase. IsHolding j phase → ⊥) (sym e) λ h. h)

    module _ (i left : ℕ) (xs : List ℤ) (e : (f p).phase ≡ Phase.sorting i left xs)
        (mine : IsRight read_file filenames i xs) where
      held : (j : ℕ) → (i == j) ≡ false → IsHolding j (f p).phase → ⊥
      held j away = subst (λ phase. IsHolding j phase → ⊥) (sym e) λ h. ground (arith, h, away)

      -- after the sort it stores the array
      pub IsKept-sorted :
          IsKept read_file filenames (update_at p new_context f) (store_array i xs s)
      unfolding store_array new_context
      IsKept-sorted =
          IsKept-update_at read_file filenames f f s (store_array i xs s) p new_context k
            (λ q away. refl) (omega arith) k.bound (length-set s.sorted_arrays i (some xs) ∙ k.size)
            (store_array-IsRight read_file filenames i xs s k.size mine k.right) refl
            (λ x. absurd x) (IsStored-store_array read_file filenames i xs s k.size mine)
            λ j lt. elim (Bool-cases (i == j)) [
              | inl here ↦ inr (
                  inl (
                    subst (λ j. IsStored j (store_array i xs s)) (eqb→eq _ _ here)
                      (store_array_self read_file filenames i xs s k.size mine)))
              | inr away ↦ inl (lt, held j away)
            ]

      -- in the sort it holds its file
      pub IsKept-sorting :
          (later : ℕ)
          → IsKept read_file filenames
              (update_at p (record (f p) { phase = Phase.sorting i later xs }) f)
              s
      IsKept-sorting later =
          IsKept-update_at read_file filenames f f s s p
            (record (f p) { phase = Phase.sorting i later xs }) k (λ q away. refl) (omega arith)
            k.bound k.size k.right mine (λ x. absurd x) (λ j h. h)
            λ j lt. elim (Bool-cases (i == j)) [
              | inl here ↦ inr (inr (eqb→eq _ _ here))
              | inr away ↦ inl (lt, held j away)
            ]
