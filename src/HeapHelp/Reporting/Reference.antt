-- ===== src/HeapHelp/Reporting/Reference.antt =====
-- What the report says, from the list of live allocations alone.
use iu_sp.Base.{
  ℕ, suc, ◌+◌, ◌-◌, ◌%◌, ◌^◌, Bool, true, false, not, ◌&&◌, Option, List, [], ◌∷◌, ◌++◌, ltb, ◌==◌,
  if◌then◌else◌, length, total,
}
use iu_sp.Int.{pos}
use iu_sp.HeapHelp.State.{Allocation, Tracker}
use iu_sp.HeapHelp.Symbols.{Symbol, trace_resolve, trace_is_internal}
use iu_sp.HeapHelp.Report.{Line, report_limit, failures, names, is_verbose, is_quiet}

-- for each list, whether it has no element
abbrev pub is_empty {ℓ} : {A : Type ℓ} → List A → Bool
is_empty [] = true
is_empty (_ ∷ _) = false

-- the lines at the end, for `n` leaks of `bytes` bytes among `m` live allocations
unfoldable pub closing : (n m bytes allocations : ℕ) → List Line
closing n m bytes allocations =
    Line.found (pos n) (bytes % 2 ^ 64)
      ∷ (if n == m then [] else Line.suppressed (pos (m - n)) ∷ [])
    ++ (if ltb report_limit n then Line.only_first report_limit ∷ [] else [])
    ++ Line.total allocations ∷ []

-- the report of a program that frees everything
abbrev pub none_lines : Tracker → List Line
none_lines t =
    if is_verbose t.report_mode then Line.no_leaks ∷ Line.total t.alloc_count_total ∷ [] else []

module _ (dladdr : ℕ → Option Symbol) where
  -- an allocation that is reported: its trace is known and stands outside of the C library's own
  abbrev pub is_leak : Allocation → Bool
  is_leak a = not (length a.trace == 0) && not (trace_is_internal (trace_resolve dladdr a.trace))

  unfoldable pub leaks_of : List Allocation → List Allocation
  leaks_of [] = []
  leaks_of (a ∷ rest) = if is_leak a then a ∷ leaks_of rest else leaks_of rest

  -- the lines of the leak that comes after `k` others
  abbrev pub leak_lines : ℕ → Allocation → List Line
  leak_lines k a =
      if ltb k report_limit then Line.leak (k + 1) a.size (names dladdr a.trace) ∷ [] else []

  -- the lines of all allocations, after `k` leaks
  unfoldable pub listing : ℕ → List Allocation → List Line
  listing k [] = []
  listing k (a ∷ rest) =
      failures dladdr a.trace
      ++ (if is_leak a then leak_lines k a ++ listing (suc k) rest else listing k rest)

  -- the report on the live allocations, of which there is one
  unfoldable pub report_of : (is_told : Bool) → List Allocation → ℕ → List Line
  report_of is_told allocs allocations =
      let leaks = leaks_of allocs in
      if is_empty leaks && not is_told
      then listing 0 allocs
      else listing 0 allocs
        ++ closing (length leaks) (length allocs) (total (λ (a : Allocation). a.size) leaks)
            allocations

  -- the report of a program that is not told to be quiet
  abbrev pub report_on : Tracker → List Line
  report_on t =
      if is_empty t.allocs
      then none_lines t
      else report_of (is_verbose t.report_mode) t.allocs t.alloc_count_total

  -- the whole report
  unfoldable pub reference : Tracker → List Line
  reference t = if is_quiet t.report_mode then [] else report_on t
