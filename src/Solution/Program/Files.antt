-- ===== src/Solution/Program/Files.antt =====
-- The files of homework-01/solution.c among its coroutines: picked, in hand, or stored.
use mathlib.Core.List.{Perm}
use iu_sp.Base.{
  ℕ, ◌≤◌, ◌<◌, ◌≡◌, ◌≢◌, refl, sym, ◌∙◌, subst, true, false, Option, some, List, ◌⊎◌, inl, inr,
  arith, ◌==◌, eqb→eq, Bool-cases, length, get_elem?, set, get_elem?-set_self, get_elem?-set_ne,
  lt-get_elem?,
}
use iu_sp.Int.{ℤ}
use iu_sp.Coro.Running.{update_at}
use iu_sp.Coro.Rounds.{update_at_other}
use iu_sp.Solution.HeapSort.Sorted.{IsSorted}
use iu_sp.Solution.Program.{Phase, Context, Shared, store_array}

-- an array is stored in this place
abbrev pub IsStored : ℕ → Shared → Type 0
IsStored i s = (xs : List ℤ) × (get_elem? s.sorted_arrays i ≡ some (some xs))

-- the coroutine sorts this file
abbrev pub IsHolding : ℕ → Phase → Type 0
IsHolding i Phase.starting = ⊥
IsHolding i (Phase.sorting file left numbers) = file ≡ i
IsHolding i Phase.ended = ⊥

abbrev pub IsEnded : Phase → Type 0
IsEnded Phase.starting = ⊥
IsEnded (Phase.sorting file left numbers) = ⊥
IsEnded Phase.ended = Unit

module _ {Name : Type 0} (read_file : Name → Option (List ℤ)) (filenames : List Name) where
  -- the array of a file's numbers, sorted
  pub record IsRight (i : ℕ) (xs : List ℤ) : Type 0 where
    pub name : Name
    pub numbers : List ℤ
    pub named : get_elem? filenames i ≡ some name
    pub holds : read_file name ≡ some numbers
    pub in_order : IsSorted xs
    pub perm : Perm xs numbers

  -- A coroutine that sorts a file holds the right array; one that has ended knows the calls of
  -- coro_yield that it made.
  abbrev pub IsProper : Context → Phase → Type 0
  IsProper w Phase.starting = w.total_switch_count ≡ w.timer.yields
  IsProper w (Phase.sorting file left numbers) = IsRight file numbers
  IsProper w Phase.ended = w.total_switch_count ≡ w.timer.yields

  pub record IsKept (f : ℕ → Context) (s : Shared) : Type 0 where
    pub bound : s.file_to_sort_idx ≤ length filenames
    pub size : length s.sorted_arrays ≡ length filenames
    pub right : (i : ℕ) (xs : List ℤ) → get_elem? s.sorted_arrays i ≡ some (some xs) → IsRight i xs
    pub covered :
        (i : ℕ) → i < s.file_to_sort_idx → IsStored i s ⊎ ((q : ℕ) × IsHolding i (f q).phase)
    pub proper : (q : ℕ) → IsProper (f q) (f q).phase
    pub finished : (q : ℕ) → IsEnded (f q).phase → s.file_to_sort_idx ≡ length filenames

  -- A turn of `p` keeps this, where it stores what it stores, and lets go of a file only to store it.
  pub IsKept-update_at :
      (f g : ℕ → Context) (s u : Shared) (p : ℕ) (b : Context)
      → IsKept f s
      → ((q : ℕ) → (q == p) ≡ false → f q ≡ g q)
      → s.file_to_sort_idx ≤ u.file_to_sort_idx
      → u.file_to_sort_idx ≤ length filenames
      → length u.sorted_arrays ≡ length filenames
      → ((i : ℕ) (xs : List ℤ) → get_elem? u.sorted_arrays i ≡ some (some xs) → IsRight i xs)
      → IsProper b b.phase
      → (IsEnded b.phase → u.file_to_sort_idx ≡ length filenames)
      → ((i : ℕ) → IsStored i s → IsStored i u)
      → ((i : ℕ)
          → i < u.file_to_sort_idx
          → ((i < s.file_to_sort_idx) × (IsHolding i (f p).phase → ⊥))
            ⊎ (IsStored i u ⊎ IsHolding i b.phase))
      → IsKept (update_at p b g) u
  IsKept-update_at f g s u p b k agree on bound size right proper finished keeps own = record {
    bound = bound;
    size = size;
    right = right;
    covered = λ i lt. elim (own i lt) [
      | inl (before, free) ↦ elim (k.covered i before) [
        | inl stored ↦ inl (keeps i stored)
        | inr (q, holding) ↦ elim (Bool-cases (q == p)) [
          | inl here ↦
              absurd (free (subst (λ r. IsHolding i (f r).phase) (eqb→eq _ _ here) holding))
          | inr away ↦ inr (
            q,
            subst (λ w. IsHolding i w.phase) (agree q away ∙ sym (update_at_other p b g q away))
                holding,
          )
        ]
      ]
      | inr (inl stored) ↦ inl stored
      | inr (inr mine) ↦ inr (p, subst (λ w. IsHolding i w.phase) (sym at_p) mine)
    ];
    proper = λ q. elim (Bool-cases (q == p)) [
      | inl here ↦ subst (λ w. IsProper w w.phase) (sym (at q here)) proper
      | inr away ↦ subst (λ w. IsProper w w.phase) (other q away) (k.proper q)
    ];
    finished = λ q e. elim (Bool-cases (q == p)) [
      | inl here ↦ finished (subst (λ w. IsEnded w.phase) (at q here) e)
      | inr away ↦
          let before = k.finished q (subst (λ w. IsEnded w.phase) (sym (other q away)) e) in
          omega (arith, before, on, bound)
    ];
  }
    where
      at : (q : ℕ) → (q == p) ≡ true → update_at p b g q ≡ b
      at q here = rw here refl

      at_p : update_at p b g p ≡ b
      at_p = at p (ground arith)

      other : (q : ℕ) → (q == p) ≡ false → f q ≡ update_at p b g q
      other q away = agree q away ∙ sym (update_at_other p b g q away)

  -- the right array is stored
  module _ (i : ℕ) (xs : List ℤ) (s : Shared) (size : length s.sorted_arrays ≡ length filenames)
      (mine : IsRight i xs) where
    pub store_array_self : IsStored i (store_array i xs s)
    unfolding store_array
    store_array_self = (
      xs,
      get_elem?-set_self s.sorted_arrays i (some xs)
          (omega (arith, size, lt-get_elem? filenames i mine.named)),
    )

    pub IsStored-store_array : (k : ℕ) → IsStored k s → IsStored k (store_array i xs s)
    unfolding store_array
    IsStored-store_array k (ys, e) = elim (Bool-cases (k == i)) [
      | inl here ↦
          subst (λ r. IsStored r (store_array i xs s)) (sym (eqb→eq _ _ here)) store_array_self
      | inr away ↦
          let ne : i ≢ k = λ h. ground (arith, h, away) in
          (ys, get_elem?-set_ne s.sorted_arrays i k (some xs) ne ∙ e)
    ]

    pub store_array-IsRight :
        ((k : ℕ) (ys : List ℤ) → get_elem? s.sorted_arrays k ≡ some (some ys) → IsRight k ys)
        → (k : ℕ) (ys : List ℤ) → get_elem? (store_array i xs s).sorted_arrays k ≡ some (some ys)
        → IsRight k ys
    unfolding store_array
    store_array-IsRight right k ys e = elim (Bool-cases (k == i)) [
      | inl here ↦
          let same : k ≡ i = eqb→eq _ _ here in
          let there =
            get_elem?-set_self s.sorted_arrays i (some xs)
              (omega (arith, size, lt-get_elem? filenames i mine.named)) in
          let now : get_elem? (set s.sorted_arrays i (some xs)) i ≡ some (some ys) =
            subst (λ r. get_elem? (set s.sorted_arrays i (some xs)) r ≡ some (some ys)) same e in
          let both : ◌≡◌ {A = Option (Option (List ℤ))} (some (some xs)) (some (some ys)) =
            sym there ∙ now in
          let inner : ◌≡◌ {A = Option (List ℤ)} (some xs) (some ys) = cc in
          let equal : xs ≡ ys = cc in
          subst (λ r. IsRight r ys) (sym same) (subst (IsRight i) equal mine)
      | inr away ↦
          let ne : i ≢ k = λ h. ground (arith, h, away) in
          right k ys (sym (get_elem?-set_ne s.sorted_arrays i k (some xs) ne) ∙ e)
    ]
