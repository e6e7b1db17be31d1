-- ===== src/Solution/Program/Goals.antt =====
-- What the coroutines of homework-01/solution.c keep, as a contract with the scheduler.
use iu_sp.Base.{ℕ, suc, ◌+◌, ◌≤◌, ◌<◌, ◌≡◌, Option, none, some, List, arith, drop, get_elem?, total}
use iu_sp.Int.{ℤ}
use iu_sp.Coro.{Coro}
use iu_sp.Coro.Running.{CoroTurn}
use iu_sp.Coro.Rounds.{Contract, Turned}
use iu_sp.Solution.Program.{Phase, Context, Shared, cost}
use iu_sp.Solution.Program.Files.{IsKept}

abbrev pub lefts : Phase → ℕ
lefts Phase.starting = 0
lefts (Phase.sorting file left numbers) = suc left
lefts Phase.ended = 0

-- of the coroutines from 0 to `n - 1`, these have not yet ended
abbrev pub IsBusy : ℕ → ℕ → Phase → Type 0
IsBusy n q Phase.starting = q < n
IsBusy n q (Phase.sorting file left numbers) = Unit
IsBusy n q Phase.ended = ⊥

-- each switch of a coroutine was a call of coro_yield
abbrev pub Matches : Coro → Context → Phase → Type 0
Matches c w Phase.starting = c.switch_count ≡ 0
Matches c w (Phase.sorting file left numbers) = c.switch_count + left ≡ w.timer.yields
Matches c w Phase.ended = ⊥

module _ {Name : Type 0} (read_file : Name → Option (List ℤ)) (filenames : List Name) where
  abbrev pub IsMissing : Type 0
  IsMissing =
      (i : ℕ) × (name : Name) × (get_elem? filenames i ≡ some name) × (read_file name ≡ none)

  abbrev price : Name → ℕ
  price = cost read_file

  -- what the `n` coroutines of the program keep
  abbrev pub program_contract : ℕ → Contract Context Shared
  program_contract n = record {
    Busy = λ q w. IsBusy n q w.phase;
    Fits = λ c w. Matches c w w.phase;
    Good = λ f s. IsKept read_file filenames f s;
    Exits = IsMissing;
    left = λ w. lefts w.phase;
    rest = λ s. total price (drop s.file_to_sort_idx filenames);
  }

  -- a smaller budget is enough
  pub Turned-more :
      (n p : ℕ) (c : Coro) (f : ℕ → Context) (less more : ℕ) (t : CoroTurn Context Shared)
      → less ≤ more
      → Turned (program_contract n) p c f less t
      → Turned (program_contract n) p c f more t
  Turned-more n p c f less more (CoroTurn.yielded b u) le h = (h.0, h.1, omega (arith, h.2, le))
  Turned-more n p c f less more (CoroTurn.returned v b u) le h = (h.0, h.1, omega (arith, h.2, le))
  Turned-more n p c f less more CoroTurn.exited le h = h
