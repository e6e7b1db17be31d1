-- ===== src/Solution/Program/Examples.antt =====
-- Runs of the program of homework-01/solution.c, and what its theorems give of them.
use iu_sp.Base.{
  inr, ℕ, ◌*◌, ◌≡◌, refl, subst, Bool, true, false, zero, suc, All, arith, get_elem?, fault, ◌^◌,
  ◌-◌, Option, none, some, List, [], ◌∷◌, ◌==◌, if◌then◌else◌, ok, Returns, total,
}
use iu_sp.Int.{ℤ, pos, negsuc}
use iu_sp.Coro.{
  coro_sched_wait, find_finished, coro_is_finished, coro_list_delete, coro_list_add,
  coro_switch_count, finish_coro, count_switch, new_coro,
}
use iu_sp.Coro.Running.{join_all, run_turns}
use iu_sp.IntArray.{load, swap}
use iu_sp.Solution.Timer.{yield_if_necessary}
use iu_sp.Solution.HeapSort.{heap_sort, build_loop, sort_loop, sift, largest_of, larger}
use iu_sp.Solution.Merge.{merge, merge_loop, scan, advance}
use iu_sp.Solution.Arguments.{
  parse_arguments, parse_options, default_options, is_usable, minus_two, coroutine_quantum,
}
use iu_sp.Solution.Stream.{Stdio, count_numbers, read_numbers}
use iu_sp.Solution.Stream.Numbers.{IsRewinding, Gives, AreRead}
use iu_sp.Solution.Whole.{sort_file}
use iu_sp.Solution.Faults.{sort_file-fault}
use iu_sp.Solution.Program.{
  start_timer, run_coroutines, file_turns, ProgramEnd, run_main, merge_output, named_files,
  start_coroutines, coroutine_func, pick_files, end_coroutine, store_array, stored_arrays,
  total_work_times, new_context,
}
use iu_sp.Solution.Program.Output.{CountEnds, run_coroutines-CountEnds}

-- `-n` is the word 0, `-t` is 1, and any other word is the number it stands for
abbrev is_n : ℕ → Bool
is_n w = w == 0

abbrev is_t : ℕ → Bool
is_t w = w == 1

-- two microseconds between readings
abbrev clock : ℕ → ℕ → ℕ
clock p k = 2 * k

-- What stands in a file: numbers, blanks and letters.
data Token : Type 0 where
  number : ℤ → Token
  blank letter : Token

record Text : Type 0 where
  whole : List Token
  rest : List Token
  at_end : Bool

-- fscanf reads the digits of a number up to what stands behind them, which may be the end of the file
abbrev is_end : List Token → Bool
is_end [] = true
is_end (_ ∷ _) = false

abbrev scan_number : List Token → Option ℤ × List Token × Bool
scan_number [] = (none, [], true)
scan_number (Token.number z ∷ ts) = (some z, ts, is_end ts)
scan_number (Token.blank ∷ ts) = scan_number ts
scan_number (Token.letter ∷ ts) = (none, Token.letter ∷ ts, false)

abbrev opened : List Token → Text
opened ts = record { whole = ts; rest = ts; at_end = false }

-- Three files of numbers, one that ends in a blank, and one with a letter.
abbrev texts : ℕ → Option (List Token)
texts w =
    if w == 200
    then some (
        Token.number (pos 3)
        ∷ Token.blank
        ∷ Token.number (negsuc 4)
        ∷ Token.blank
        ∷ Token.number (pos 7)
        ∷ [])
    else if w == 201
    then some (Token.number (pos 5) ∷ Token.blank ∷ Token.number (pos 0) ∷ [])
    else if w == 202
    then some (Token.blank ∷ Token.number (pos 4) ∷ [])
    else if w == 204
    then some (Token.number (pos 1) ∷ Token.blank ∷ [])
    else if w == 205
    then some (Token.letter ∷ [])
    else none

abbrev stdio : Stdio ℕ Text
stdio = record {
  fopen = λ w. elim (texts w) [ none ↦ none | some ts ↦ some (opened ts) ];
  feof = λ file. file.at_end;
  fscanf = λ file.
      let (z, ts, at_end) = scan_number file.rest in
      (z, record file { rest = ts; at_end = at_end });
  rewind = λ file. opened file.whole;
}

-- the numbers of the files
abbrev read_file : ℕ → Option (List ℤ)
read_file w =
    if w == 200
    then some (pos 3 ∷ negsuc 4 ∷ pos 7 ∷ [])
    else if w == 201
    then some (pos 5 ∷ pos 0 ∷ [])
    else if w == 202
    then some (pos 4 ∷ [])
    else none

stdio-IsRewinding : IsRewinding stdio
stdio-IsRewinding = record {
  scanned = λ file. refl;
  opened = λ name file e. at_start (texts name) file e;
}
  where
    at_start :
        (o : Option (List Token)) (file : Text)
        → ◌≡◌ {A = Option Text} (elim o [ none ↦ none | some ts ↦ some (opened ts) ]) (some file)
        → opened file.whole ≡ file
    at_start none file e = cc
    at_start (some ts) file e =
        let same : opened ts ≡ file = cc in subst (λ f. opened f.whole ≡ f) same refl

All-get_elem? :
    {A : Type 0} (P : A → Type 0) (xs : List A) (i : ℕ) {x : A}
    → All P xs
    → get_elem? xs i ≡ some x
    → P x
All-get_elem? P [] i all e = cc
All-get_elem? P (y ∷ xs) zero {x} all e = let same : y ≡ x = cc in subst P same all.0
All-get_elem? P (y ∷ xs) (suc i) all e = All-get_elem? P xs i all.1 e

files-AreRead : AreRead stdio read_file (200 ∷ 201 ∷ 202 ∷ [])
files-AreRead = record {
  rewinding = stdio-IsRewinding;
  gives = λ i name e.
      All-get_elem? (λ w. Gives stdio (stdio.fopen w) (read_file w)) (200 ∷ 201 ∷ 202 ∷ []) i
        (
          ((refl, refl, (refl, refl, (refl, refl, refl))), omega arith),
          (
            ((refl, refl, (refl, refl, refl)), omega arith),
            (((refl, refl, refl), omega arith), tt),
          ),
        )
        e;
}

-- `-n 2 -t 2 200 201 202`: two coroutines, whose quantum is 1
abbrev words : List ℕ
words = 0 ∷ 2 ∷ 1 ∷ 2 ∷ 200 ∷ 201 ∷ 202 ∷ []

run_written :
    run_main is_n is_t pos clock stdio true words
    ≡ ok (ProgramEnd.wrote (negsuc 4 ∷ pos 0 ∷ pos 3 ∷ pos 4 ∷ pos 5 ∷ pos 7 ∷ []) 18)
unfolding run_main merge_output named_files run_coroutines start_coroutines coroutine_func
    pick_files end_coroutine store_array stored_arrays total_work_times new_context join_all
    run_turns coro_sched_wait find_finished coro_is_finished coro_list_delete coro_list_add
    coro_switch_count finish_coro count_switch new_coro sort_file count_numbers read_numbers
    file_turns heap_sort build_loop sort_loop sift largest_of larger yield_if_necessary load swap
    merge merge_loop scan advance parse_arguments parse_options default_options is_usable minus_two
    coroutine_quantum total
run_written = refl

-- the files 200 and 203, the second of which is not there
run_missing : run_main is_n is_t pos clock stdio true (200 ∷ 203 ∷ []) ≡ ok ProgramEnd.file_missing
unfolding run_main merge_output named_files run_coroutines start_coroutines coroutine_func
    pick_files end_coroutine store_array stored_arrays total_work_times new_context join_all
    run_turns coro_sched_wait find_finished coro_is_finished coro_list_delete coro_list_add
    coro_switch_count finish_coro count_switch new_coro sort_file count_numbers read_numbers
    file_turns heap_sort build_loop sort_loop sift largest_of larger yield_if_necessary load swap
    merge merge_loop scan advance parse_arguments parse_options default_options is_usable minus_two
    coroutine_quantum total
run_missing = refl

-- A file that ends in a blank: an entry is counted that fscanf never stores.
run_ends_in_blank : run_main is_n is_t pos clock stdio true (204 ∷ []) ≡ fault
unfolding run_main merge_output named_files run_coroutines start_coroutines coroutine_func
    pick_files end_coroutine store_array stored_arrays total_work_times new_context join_all
    run_turns coro_sched_wait find_finished coro_is_finished coro_list_delete coro_list_add
    coro_switch_count finish_coro count_switch new_coro sort_file count_numbers read_numbers
    file_turns parse_arguments parse_options default_options is_usable minus_two coroutine_quantum
    total
run_ends_in_blank = refl

-- A file with a letter: the count goes on until it overflows, here from a start near INT_MAX.
count_overflows : count_numbers stdio 3 (2 ^ 31 - 4) (opened (Token.letter ∷ [])) ≡ fault
unfolding count_numbers
count_overflows = refl

sort_file-fault_example :
    sort_file stdio 1 (record {
      file = opened (Token.number (pos 1) ∷ Token.blank ∷ []);
      get_now = clock 0;
      timer = start_timer 0;
    })
    ≡ fault
sort_file-fault_example =
    sort_file-fault stdio 1
      (record {
        file = opened (Token.number (pos 1) ∷ Token.blank ∷ []);
        get_now = clock 0;
        timer = start_timer 0;
      })
      (pos 1 ∷ [])
      (record {
        whole = Token.number (pos 1) ∷ Token.blank ∷ [];
        rest = Token.blank ∷ [];
        at_end = false;
      })
      stdio-IsRewinding refl (refl, refl, refl)
      (inr (record { more = refl; unread = refl; over = refl })) (omega arith)

run_coroutines-CountEnds_example :
    Returns
      (CountEnds clock 1 stdio read_file (200 ∷ 201 ∷ 202 ∷ []) 2)
      (run_coroutines clock 1 stdio (200 ∷ 201 ∷ 202 ∷ []) 2)
run_coroutines-CountEnds_example =
    run_coroutines-CountEnds clock 1 stdio read_file (200 ∷ 201 ∷ 202 ∷ []) 2 files-AreRead
