-- ===== src/Solution/Program.antt =====
-- `coroutine_func_f` and `main` of homework-01/solution.c: coroutines that pick files by a shared index
-- and sort them, under the scheduler of homework-01/libcoro.c, and the merge of what they leave.
pub mod Files
pub mod Goals
pub mod Holding
pub mod Sorting
pub mod Picking
pub mod Law
pub mod Ends
pub mod Output
mod Examples
use iu_sp.Base.{
  ℕ, zero, suc, ◌+◌, ◌-◌, ◌*◌, ◌^◌, Bool, true, false, Option, none, some, List, [], ◌∷◌, length,
  drop, get_elem?, set, replicate, total, Run, ok, fault, out_of_fuel, or_fault, ◌>>=◌,
}
use iu_sp.Int.{ℤ, pos, pos_part}
use iu_sp.Coro.{Coro, Coros, new_coro, coro_list_add, coro_switch_count}
use iu_sp.Coro.Running.{CoroTurn, join_all}
use iu_sp.Solution.Timer.{Timer}
use iu_sp.Solution.Arguments.{Options, parse_arguments, coroutine_quantum}
use iu_sp.Solution.Stream.{Stdio, count_numbers}
use iu_sp.Solution.Whole.{Job, sort_file}
use iu_sp.Solution.Merge.{merge}
use iu_sp.Solution.Yields.{file_yields}

-- Where a coroutine stands between two turns: before its first, in the sort of a file, with the calls
-- of coro_yield that are left and the array as it will be after them, or behind its end.
pub data Phase : Type 0 where
  starting : Phase
  sorting : (file left : ℕ) (numbers : List ℤ) → Phase
  ended : Phase

-- `struct coro_context`, less what the contexts share
pub record Context : Type 0 where
  pub timer : Timer
  pub total_switch_count : ℕ
  pub phase : Phase

-- what the contexts point to; an array is `none` until its coroutine has sorted it
pub record Shared : Type 0 where
  pub file_to_sort_idx : ℕ
  pub sorted_arrays : List (Option (List ℤ))

abbrev pub start_timer : ℕ → Timer
start_timer now = record {
  total_work_time = 0;
  last_work_timer_start = now;
  readings = 1;
  yields = 0;
}

unfoldable pub new_context : Context
new_context = record {
  timer = record { total_work_time = 0; last_work_timer_start = 0; readings = 0; yields = 0 };
  total_switch_count = 0;
  phase = Phase.starting;
}

unfoldable pub store_array : ℕ → List ℤ → Shared → Shared
store_array i xs s = record s { sorted_arrays = set s.sorted_arrays i (some xs) }

-- the turns that a file of these numbers takes at most
abbrev pub file_cost : Option (List ℤ) → ℕ
file_cost none = 0
file_cost (some numbers) = suc (file_yields (length numbers))

abbrev pub cost : {Name : Type 0} → (Name → Option (List ℤ)) → Name → ℕ
cost read_file name = file_cost (read_file name)

-- the loop of `main` that starts `n` coroutines, each known by the place of its context
unfoldable pub start_coroutines : ℕ → Coros
start_coroutines zero = []
start_coroutines (suc i) = coro_list_add i new_coro (start_coroutines i)

-- the turns that a file takes at most, by the count of its numbers
unfoldable pub file_turns : {Name File : Type 0} → Stdio Name File → Name → ℕ
file_turns stdio name = elim (stdio.fopen name) [
  | none ↦ 0
  | some file ↦ turns (count_numbers stdio (2 ^ 31 - 1) 0 file)
]
  where
    turns : {File : Type 0} → Run (ℕ × File) → ℕ
    turns (ok (numbers_count, end)) = suc (file_yields numbers_count)
    turns fault = 0
    turns out_of_fuel = 0

-- `clock p k` is what the coroutine `p`'s reading number `k` of the clock gives, and `stdio` what the C
-- library gives of the files.
module _ {Name File : Type 0} (clock : ℕ → ℕ → ℕ) (quantum : ℕ) (stdio : Stdio Name File)
    (filenames : List Name) where
  -- the end of coroutine_func_f
  unfoldable pub end_coroutine : ℕ → Coro → Timer → Shared → CoroTurn Context Shared
  end_coroutine p c t s =
      CoroTurn.returned (pos 0)
        (record {
          timer = record t {
            total_work_time = t.total_work_time + (clock p t.readings - t.last_work_timer_start);
            readings = t.readings + 1;
          };
          total_switch_count = coro_switch_count c;
          phase = Phase.ended;
        })
        s

  -- The loop of coroutine_func_f up to the first coro_yield, with the files that are left. Nobody else
  -- uses the stream or the numbers of a file while its coroutine sorts them, so that they are read and
  -- sorted here and stored after the last coro_yield of the sort.
  unfoldable pub pick_files : ℕ → ℕ → Coro → Timer → Shared → Run (CoroTurn Context Shared)
  pick_files zero p c t s = ok (end_coroutine p c t s)
  pick_files (suc remaining) p c t s =
      let i = s.file_to_sort_idx in
      let picked = record s { file_to_sort_idx = i + 1 } in
      or_fault (get_elem? filenames i) >>= λ name. elim (stdio.fopen name) [
        | none ↦ ok CoroTurn.exited
        | some file ↦
            sort_file stdio quantum (record { file = file; get_now = clock p; timer = t })
            >>= λ (xs, u). elim (u.yields - t.yields) [
              | zero ↦ pick_files remaining p c u (store_array i xs picked)
              | suc left ↦ ok (
                  CoroTurn.yielded
                    (record { timer = u; total_switch_count = 0; phase = Phase.sorting i left xs })
                    picked)
            ]
      ]

  -- a turn of `coroutine_func_f`
  unfoldable pub coroutine_func : ℕ → Coro → Context → Shared → Run (CoroTurn Context Shared)
  coroutine_func p c w s = elim w.phase [
    | Phase.starting ↦
        pick_files (length filenames - s.file_to_sort_idx) p c (start_timer (clock p 0)) s
    | Phase.sorting i zero xs ↦
        pick_files (length filenames - s.file_to_sort_idx) p c w.timer (store_array i xs s)
    | Phase.sorting i (suc left) xs ↦
        ok (CoroTurn.yielded (record w { phase = Phase.sorting i left xs }) s)
    | Phase.ended ↦ fault
  ]

  -- From the start of `n` coroutines to the end of the last. The fuel is for two rounds a coroutine, and
  -- one for each turn of a file.
  unfoldable pub run_coroutines : ℕ → Run (Option ((ℕ → Context) × Shared))
  run_coroutines n =
      join_all coroutine_func (suc (2 * n + total (file_turns stdio) filenames))
        (start_coroutines n) (λ _. new_context)
        (record { file_to_sort_idx = 0; sorted_arrays = replicate (length filenames) none })

-- the arrays as the merge reads them, a fault where one has never been stored
unfoldable pub stored_arrays : List (Option (List ℤ)) → Run (List (List ℤ))
stored_arrays [] = ok []
stored_arrays (a ∷ arrays) = or_fault a >>= λ xs. stored_arrays arrays >>= λ rest. ok (xs ∷ rest)

-- the sum of the work times of `n` contexts
unfoldable pub total_work_times : ℕ → (ℕ → Context) → ℕ
total_work_times zero contexts = 0
total_work_times (suc i) contexts = total_work_times i contexts + (contexts i).timer.total_work_time

-- How the program ends: it prints its usage and returns 1, cannot open a file and exits with -1,
-- cannot open its output and returns 1, or returns 0, with what it wrote and the sum of work times.
pub data ProgramEnd : Type 0 where
  usage file_missing output_missing : ProgramEnd
  wrote : (numbers : List ℤ) (work_time : ℕ) → ProgramEnd

-- `argv + (argc - files_count)`, of the arguments behind the program's name
unfoldable pub named_files {ℓ} : {Word : Type ℓ} → List Word → Options → List Word
named_files ws o = drop (length ws - pos_part o.files_count) ws

-- the end of `main`, from its sum of work times on
unfoldable pub merge_output : Bool → ℕ → (ℕ → Context) × Shared → Run ProgramEnd
merge_output false n (contexts, s) = ok ProgramEnd.output_missing
merge_output true n (contexts, s) = stored_arrays s.sorted_arrays >>= λ arrays.
    merge arrays >>= λ (out, _). ok (ProgramEnd.wrote out (total_work_times n contexts))

-- `output_opens` is whether fopen opens the output file.
module _ {Word File : Type 0} (is_n is_t : Word → Bool) (strtol : Word → ℤ) (clock : ℕ → ℕ → ℕ)
    (stdio : Stdio Word File) (output_opens : Bool) where
  -- `main`, of the arguments behind the program's name
  unfoldable pub run_main : List Word → Run ProgramEnd
  run_main ws = elim (parse_arguments is_n is_t strtol ws) [
    | none ↦ ok ProgramEnd.usage
    | some o ↦
        let n = pos_part o.coroutines_count in
        run_coroutines clock (coroutine_quantum o) stdio (named_files ws o) n >>= λ r. elim r [
          | none ↦ ok ProgramEnd.file_missing
          | some result ↦ merge_output output_opens n result
        ]
  ]
