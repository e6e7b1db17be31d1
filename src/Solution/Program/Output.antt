-- ===== src/Solution/Program/Output.antt =====
-- What the coroutines and `main` of homework-01/solution.c come to.
use mathlib.Core.List.{Perm}
use iu_sp.Base.{
  ℕ, ◌<◌, ◌≡◌, refl, subst, Bool, false, Option, none, some, List, get_elem?, Returns, Returns-map,
}
use iu_sp.Int.{ℤ}
use iu_sp.Solution.Arguments.{Options, parse_arguments}
use iu_sp.Solution.HeapSort.Sorted.{IsSorted}
use iu_sp.Solution.Stream.{Stdio}
use iu_sp.Solution.Stream.Numbers.{AreRead, fopen-none}
use iu_sp.Solution.Program.{Phase, Context, Shared, run_coroutines, ProgramEnd, named_files}
use iu_sp.Solution.Program.Files.{IsProper}
use iu_sp.Solution.Program.Goals.{IsBusy}
use iu_sp.Solution.Program.Ends.{contents, RunEnds, run_coroutines-JoinEnds}

-- of `n` coroutines, one that is not busy has ended
not_busy : (n q : ℕ) (phase : Phase) → q < n → (IsBusy n q phase → ⊥) → phase ≡ Phase.ended
not_busy n q Phase.starting lt idle = absurd (idle lt)
not_busy n q (Phase.sorting file left numbers) lt idle = absurd (idle tt)
not_busy n q Phase.ended lt idle = refl

module _ {Name File : Type 0} (clock : ℕ → ℕ → ℕ) (quantum : ℕ) (stdio : Stdio Name File)
    (read_file : Name → Option (List ℤ)) (filenames : List Name) where
  -- how `n` coroutines end: one does not find its file, or all have counted their switches
  abbrev pub CountEnds : ℕ → Option ((ℕ → Context) × Shared) → Type 0
  CountEnds n none =
      (i : ℕ) × (name : Name) × (get_elem? filenames i ≡ some name) × (stdio.fopen name ≡ none)
  CountEnds n (some (g, u)) =
      (q : ℕ)
      → q < n
      → ((g q).phase ≡ Phase.ended) × ((g q).total_switch_count ≡ (g q).timer.yields)

  -- Coroutines that run by turns over files each of which cannot be opened or holds fewer than 2 ^ 30
  -- numbers and nothing behind the last: they end, and unless one of them meets a file that cannot be
  -- opened, each has ended, and the count of its switches in its context is that of its calls of
  -- coro_yield.
  pub run_coroutines-CountEnds :
      (n : ℕ)
      → AreRead stdio read_file filenames
      → Returns (CountEnds n) (run_coroutines clock quantum stdio filenames n)
  run_coroutines-CountEnds n reads =
      Returns-map (run_coroutines-JoinEnds clock quantum stdio read_file filenames n reads) counts
    where
      counts :
          (r : Option ((ℕ → Context) × Shared))
          → RunEnds clock quantum stdio read_file filenames n r
          → CountEnds n r
      counts none (i, name, e, missing) = (
        i,
        name,
        e,
        fopen-none stdio (stdio.fopen name) (read_file name) missing (reads.gives i name e),
      )
      counts (some (g, u)) (k, idle) = λ q lt.
          let over = not_busy n q (g q).phase lt (idle q) in
          (over, subst (IsProper read_file filenames (g q)) over (k.proper q))

module _ {Word File : Type 0} (is_n is_t : Word → Bool) (strtol : Word → ℤ) (clock : ℕ → ℕ → ℕ)
    (stdio : Stdio Word File) (read_file : Word → Option (List ℤ)) (output_opens : Bool) where
  -- the arguments that the program goes on with, and the files that they name
  abbrev pub Names : List Word → List Word → Type 0
  Names ws names =
      (o : Options) × (parse_arguments is_n is_t strtol ws ≡ some o) × (names ≡ named_files ws o)

  -- how the program may end
  abbrev pub RightEnding : List Word → ProgramEnd → Type 0
  RightEnding ws ProgramEnd.usage = parse_arguments is_n is_t strtol ws ≡ none
  RightEnding ws ProgramEnd.file_missing =
      (names : List Word) × Names ws names
      × ((i : ℕ) × (name : Word) × (get_elem? names i ≡ some name) × (stdio.fopen name ≡ none))
  RightEnding ws ProgramEnd.output_missing = output_opens ≡ false
  RightEnding ws (ProgramEnd.wrote out time) =
      (names : List Word) × Names ws names × IsSorted out × Perm out (contents read_file names)
