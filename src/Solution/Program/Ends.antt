-- ===== src/Solution/Program/Ends.antt =====
-- The coroutines that `main` of homework-01/solution.c starts, from the first turn to the last.
use mathlib.Core.List.{Perm}
use mathlib.Core.List.Perm
use iu_sp.Base.{
  ℕ, zero, suc, ◌+◌, ◌-◌, ◌^◌, ◌*◌, ◌≤◌, ◌<◌, ◌≡◌, refl, ◌∙◌, ap, false, Option, none, some, List,
  [], ◌∷◌, ◌++◌, inl, inr, All, arith, ◌==◌, length, get_elem?, replicate, length-replicate, total,
  Returns, returns, Returns-bind, Bool-cases,
}
use iu_sp.Int.{ℤ}
use iu_sp.Coro.{Coro, new_coro, coro_list_add}
use iu_sp.Coro.Waiting.{IsAbsent, IsDistinct}
use iu_sp.Coro.Joined.{weight}
use iu_sp.Coro.Rounds.{IsRunning}
use iu_sp.Coro.Joining.{JoinEnds, join_all-JoinEnds}
use iu_sp.Solution.HeapSort.Sorted.{IsSorted}
use iu_sp.Solution.Merge.{flatten}
use iu_sp.Solution.Stream.{Stdio}
use iu_sp.Solution.Stream.Numbers.{IsRewinding, Gives, AreRead, count_numbers-IsAt}
use iu_sp.Solution.Program.{
  Context, Shared, new_context, coroutine_func, cost, file_turns, start_coroutines, run_coroutines,
  stored_arrays,
}
use iu_sp.Solution.Program.Files.{IsRight, IsKept}
use iu_sp.Solution.Program.Goals.{Matches, program_contract}
use iu_sp.Solution.Program.Law.{coroutine_func-Turned}

-- the coroutines that main starts

start_coroutines-IsAbsent : (n q : ℕ) → n ≤ q → IsAbsent q (start_coroutines n)
unfolding start_coroutines coro_list_add
start_coroutines-IsAbsent zero q le = tt
start_coroutines-IsAbsent (suc i) q le = (ground arith, start_coroutines-IsAbsent i q (omega arith))

start_coroutines-IsDistinct : (n : ℕ) → IsDistinct (start_coroutines n)
unfolding start_coroutines coro_list_add
start_coroutines-IsDistinct zero = tt
start_coroutines-IsDistinct (suc i) =
    (start_coroutines-IsAbsent i i (omega arith), start_coroutines-IsDistinct i)

start_coroutines-IsRunning : (n q : ℕ) → q < n → IsRunning q (start_coroutines n)
unfolding start_coroutines coro_list_add new_coro
start_coroutines-IsRunning zero q lt = absurd (omega arith)
start_coroutines-IsRunning (suc i) q lt = elim (Bool-cases (i == q)) [
  | inl here ↦ inl (ground (arith, here), refl)
  | inr away ↦ inr (start_coroutines-IsRunning i q (ground (arith, away, lt)))
]

start_coroutines-Matches :
    (n : ℕ)
    → All
        (λ (e : ℕ × Coro). e.1.is_finished ≡ false → Matches e.1 new_context new_context.phase)
        (start_coroutines n)
unfolding start_coroutines coro_list_add new_coro new_context
start_coroutines-Matches zero = tt
start_coroutines-Matches (suc i) = (λ e. refl, start_coroutines-Matches i)

total-start_coroutines : (n : ℕ) → total (weight (λ q. 0)) (start_coroutines n) ≡ 2 * n
unfolding start_coroutines coro_list_add new_coro total
total-start_coroutines zero = refl
total-start_coroutines (suc i) = omega (arith, total-start_coroutines i)

get_elem?-replicate :
    {A : Type 0} (n i : ℕ) (a : A) {b : A} → get_elem? (replicate n a) i ≡ some b → a ≡ b
get_elem?-replicate zero i a e = cc
get_elem?-replicate (suc n) zero a e = cc
get_elem?-replicate (suc n) (suc i) a {b} e = get_elem?-replicate n i a e

module _ {Name : Type 0} (read_file : Name → Option (List ℤ)) where
  abbrev numbers_of : Option (List ℤ) → List ℤ
  numbers_of none = []
  numbers_of (some numbers) = numbers

  -- the numbers of the files
  abbrev pub contents : List Name → List ℤ
  contents [] = []
  contents (name ∷ names) = numbers_of (read_file name) ++ contents names

  pub stored_arrays-IsSorted :
      (names : List Name) (arrays : List (Option (List ℤ)))
      → length arrays ≡ length names
      → ((i : ℕ)
          → i < length names
          → (xs : List ℤ) × (get_elem? arrays i ≡ some (some xs)) × IsRight read_file names i xs)
      → Returns
          (λ out. All IsSorted out × Perm (flatten out) (contents names))
          (stored_arrays arrays)
  unfolding stored_arrays
  stored_arrays-IsSorted [] [] e h = returns (tt, Perm.refl [])
  stored_arrays-IsSorted [] (a ∷ arrays) e h = absurd (omega (arith, e))
  stored_arrays-IsSorted (name ∷ names) [] e h = absurd (omega (arith, e))
  stored_arrays-IsSorted (name ∷ names) (a ∷ arrays) e h =
      let (xs, at, r) = h 0 (omega arith) in
      let there : a ≡ some xs = cc in
      let same : name ≡ r.name = first r.named in
      let read : read_file name ≡ some r.numbers = ap read_file same ∙ r.holds in
      rw (there, read)
        (Returns-bind
          (stored_arrays-IsSorted names arrays (omega (arith, e))
            λ i lt. later i (h (suc i) (omega arith)))
          λ out p. returns ((r.in_order, p.0), Perm.append r.perm p.1))
    where
      first : {x y : Name} → get_elem? (x ∷ names) 0 ≡ some y → x ≡ y
      first e = cc

      later :
          (i : ℕ)
          → (xs : List ℤ) × (get_elem? (a ∷ arrays) (suc i) ≡ some (some xs))
            × IsRight read_file (name ∷ names) (suc i) xs
          → (xs : List ℤ) × (get_elem? arrays i ≡ some (some xs)) × IsRight read_file names i xs
      later i (xs, at, r) = (
        xs,
        at,
        record {
          name = r.name;
          numbers = r.numbers;
          named = r.named;
          holds = r.holds;
          in_order = r.in_order;
          perm = r.perm;
        },
      )

-- the count of a file's numbers says how many turns it takes
file_turns-cost :
    {Name File : Type 0} (stdio : Stdio Name File) (read_file : Name → Option (List ℤ))
    (name : Name)
    → IsRewinding stdio
    → (o : Option File) → stdio.fopen name ≡ o
    → (r : Option (List ℤ)) → read_file name ≡ r
    → Gives stdio o r
    → file_turns stdio name ≡ cost read_file name
unfolding file_turns
file_turns-cost stdio read_file name laws none e none holds g = rw (e, file_turns, holds) refl
file_turns-cost stdio read_file name laws none e (some numbers) holds g = absurd g
file_turns-cost stdio read_file name laws (some file) e none holds g = absurd g
file_turns-cost stdio read_file name laws (some file) e (some numbers) holds (at, short) =
    let (end, counted, back) =
      count_numbers-IsAt stdio laws (2 ^ 31 - 1) 0 file numbers at (omega (arith, short)) in
    let whole : 0 + length numbers ≡ length numbers = omega arith in
    rw (e, file_turns, holds, counted, whole) refl

total_cong :
    {A : Type 0} (v w : A → ℕ) (xs : List A)
    → ((i : ℕ) (x : A) → get_elem? xs i ≡ some x → v x ≡ w x)
    → total v xs ≡ total w xs
unfolding total
total_cong v w [] h = refl
total_cong v w (x ∷ xs) h =
    let first = h 0 x refl in
    let rest = total_cong v w xs (λ i y e. h (suc i) y e) in omega (arith, first, rest)

module _ {Name File : Type 0} (clock : ℕ → ℕ → ℕ) (quantum : ℕ) (stdio : Stdio Name File)
    (read_file : Name → Option (List ℤ)) (filenames : List Name) where
  abbrev start : Shared
  start = record { file_to_sort_idx = 0; sorted_arrays = replicate (length filenames) none }

  start-IsKept : IsKept read_file filenames (λ _. new_context) start
  unfolding new_context
  start-IsKept = record {
    bound = omega arith;
    size = length-replicate (length filenames) none;
    right = λ i xs e.
        let never : ◌≡◌ {A = Option (List ℤ)} none (some xs) =
          get_elem?-replicate (length filenames) i none e in
        cc;
    covered = λ i lt. absurd (omega arith);
    proper = λ q. refl;
    finished = λ q e. absurd e;
  }

  -- how the coroutines end: one does not find its file, or all have ended
  abbrev pub RunEnds : ℕ → Option ((ℕ → Context) × Shared) → Type 0
  RunEnds n r = JoinEnds (program_contract read_file filenames n) r

  pub run_coroutines-JoinEnds :
      (n : ℕ)
      → AreRead stdio read_file filenames
      → Returns (RunEnds n) (run_coroutines clock quantum stdio filenames n)
  unfolding run_coroutines new_context
  run_coroutines-JoinEnds n reads =
      let enough = total_cong (file_turns stdio) (cost read_file) filenames (λ i name e.
        file_turns-cost stdio read_file name reads.rewinding (stdio.fopen name) refl
          (read_file name) refl (reads.gives i name e)) in
      join_all-JoinEnds (program_contract read_file filenames n)
        (coroutine_func clock quantum stdio filenames)
        (coroutine_func-Turned clock quantum stdio read_file filenames reads n)
        (suc (2 * n + total (file_turns stdio) filenames)) (start_coroutines n) (λ _. new_context)
        start (start_coroutines-IsDistinct n) (start_coroutines-Matches n) start-IsKept
        (λ q lt. start_coroutines-IsRunning n q lt)
        (omega (arith, enough, total-start_coroutines n))
