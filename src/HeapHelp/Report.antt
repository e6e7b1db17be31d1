-- ===== src/HeapHelp/Report.antt =====
-- heaph_atexit: what the tracker prints at the end of the program. The blank lines are left out.
use Prim.Native.String.{String}
use mathlib.Core.List.{map}
use iu_sp.Base.{
  ℕ, ◌+◌, ◌^◌, ◌%◌, ◌&&◌, Bool, true, false, not, Option, none, some, List, [], ◌∷◌, ◌++◌, ltb,
  ◌==◌, if◌then◌else◌, length, Run, ok, ◌>>=◌, ◌>>◌, assert,
}
use iu_sp.Int.{ℤ, pos, ltb_ℤ, pred_ℤ, ◌-ℤ◌, is_zero}
use iu_sp.HeapHelp.State.{Allocation, ReportMode, Tracker, lock_allocs, unlock_allocs}
use iu_sp.HeapHelp.Symbols.{Symbol, trace_resolve, trace_is_internal}

pub data Line : Type 0 where
  no_leaks dladdr_failure : Line
  total : (count : ℕ) → Line
  leak : (number size : ℕ) (trace : List (Option String)) → Line
  found : (count : ℤ) (size : ℕ) → Line
  suppressed : (count : ℤ) → Line
  only_first : (count : ℕ) → Line

abbrev pub report_limit : ℕ
report_limit = 10

-- the variables of the loop, with what it has printed
pub record Tally : Type 0 where
  pub count : ℤ
  pub report_count : ℕ
  pub leak_size : ℕ
  pub out : List Line

module _ (dladdr : ℕ → Option Symbol) where
  -- what trace_resolve prints
  unfoldable pub failures : List ℕ → List Line
  failures [] = []
  failures (addr ∷ addrs) = elim (dladdr addr) [
    | none ↦ Line.dladdr_failure ∷ failures addrs
    | some _ ↦ failures addrs
  ]

  abbrev pub names : List ℕ → List (Option String)
  names trace = map (λ (s : Symbol). s.name) (trace_resolve dladdr trace)

  -- a leak that is not internal: it is printed while there are few of them, and its size counts
  unfoldable pub report_leak : Allocation → Tally → Tally
  report_leak a s =
      let bytes = (s.leak_size + a.size) % 2 ^ 64 in
      if ltb s.report_count report_limit
      then record s {
        report_count = s.report_count + 1;
        leak_size = bytes;
        out = s.out ++ Line.leak (s.report_count + 1) a.size (names a.trace) ∷ [];
      }
      else record s { leak_size = bytes }

  -- one round of the loop
  unfoldable pub report_one : Allocation → Tally → Tally
  report_one a s =
      let resolved = record s { out = s.out ++ failures a.trace } in
      if length a.trace == 0
      then record s { count = pred_ℤ s.count }
      else if trace_is_internal (trace_resolve dladdr a.trace)
      then record resolved { count = pred_ℤ s.count }
      else report_leak a resolved

  unfoldable pub report_loop : List Allocation → Tally → Run Tally
  report_loop [] s = ok s
  report_loop (a ∷ rest) s = assert (ltb_ℤ (pos 0) s.count) >> report_loop rest (report_one a s)

-- what follows the loop
unfoldable pub summary : ℤ → ℕ → Tally → List Line
summary total_count alloc_count_total s =
    let suppressed_count = total_count -ℤ s.count in
    Line.found s.count s.leak_size
      ∷ (if is_zero suppressed_count then [] else Line.suppressed suppressed_count ∷ [])
    ++ (if ltb_ℤ (pos s.report_count) s.count then Line.only_first s.report_count ∷ [] else [])
    ++ Line.total alloc_count_total ∷ []

abbrev pub is_verbose : ReportMode → Bool
is_verbose ReportMode.verbose = true
is_verbose _ = false

abbrev pub is_quiet : ReportMode → Bool
is_quiet ReportMode.quiet = true
is_quiet _ = false

-- the report of a program with live allocations, under the lock, and what follows it
unfoldable pub report_leaks : (ℕ → Option Symbol) → Tracker → Run (Tracker × List Line)
report_leaks dladdr t =
    let first : Tally = record {
      count = t.alloc_count;
      report_count = 0;
      leak_size = 0;
      out = [];
    } in
    report_loop dladdr t.allocs first >>= λ s. unlock_allocs t >>= λ t1. ok (
      t1,
      if is_zero s.count && not (is_verbose t.report_mode)
          then s.out
          else s.out ++ summary t.alloc_count t.alloc_count_total s,
    )

unfoldable pub report_none : Tracker → Run (Tracker × List Line)
report_none t = unlock_allocs t >>= λ t1. ok (
  t1,
  if is_verbose t.report_mode then Line.no_leaks ∷ Line.total t.alloc_count_total ∷ [] else [],
)

unfoldable pub heaph_atexit : (ℕ → Option Symbol) → Tracker → Run (Tracker × List Line)
heaph_atexit dladdr t0 =
    let t1 = record t0 { is_exit_done = true } in
    if t0.is_exit_done
    then ok (t1, [])
    else if is_quiet t1.report_mode
    then ok (t1, [])
    else (lock_allocs t1 >>= λ t.
        if is_zero t.alloc_count then report_none t else report_leaks dladdr t)
