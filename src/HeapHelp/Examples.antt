-- ===== src/HeapHelp/Examples.antt =====
-- Trackers to try the definitions on, and the theorems at inputs where their conditions hold.
use iu_sp.Base.{
  ℕ, ◌≡◌, refl, Bool, true, false, Option, none, some, List, [], ◌∷◌, map, arith, total, ok, fault,
  ◌>>=◌, if◌then◌else◌, ◌==◌,
}
use iu_sp.Int.{pos}
use iu_sp.HeapHelp.State.{Allocation, Ptr, ReportMode, Source, Tracker, initial}
use iu_sp.HeapHelp.Bodies.{Answer}
use iu_sp.HeapHelp.Init.{Early, Setup}
use iu_sp.HeapHelp.Symbols.{
  Symbol, trace_resolve, resolve_symbol, trace_is_internal, trace_sym_is_internal,
  trace_sym_is_func, trace_sym_file_starts_with, starts_with,
}
use iu_sp.HeapHelp.Calls.{malloc, calloc, realloc, free, heaph_get_alloc_count}
use iu_sp.HeapHelp.Report.{Line, failures, heaph_atexit}
use iu_sp.HeapHelp.Invariant.{IsTracking}
use iu_sp.HeapHelp.Spec.{
  Call, mallocs, callocs, reallocs, strdups, frees, getlines, getaddrinfos, freeaddrinfos, Live,
  put, spec, Implements, Refines,
}
use iu_sp.HeapHelp.Refinement.Sessions.{
  session, session_spec, spec_from, fit_from, all_fit, session-Refines,
}
use iu_sp.HeapHelp.Refinement.Count.{count, heaph_get_alloc_count-length}
use iu_sp.HeapHelp.Refinement.Misuse.{free-free, realloc-free}
use iu_sp.HeapHelp.Reporting.Reference.{reference, report_of, closing, listing, leaks_of}
use iu_sp.HeapHelp.Reporting.Laws.{heaph_atexit-reference}
use iu_sp.HeapHelp.Aside.{aside_unchanged}

abbrev answer : Ptr → Answer
answer p = record { result = p; buf = 5000; backtrace = 7 ∷ 8 ∷ [] }

abbrev setup : Setup
setup = record {
  early =
      Early.callocs (answer 0) 1 32
      ∷ Early.mallocs (answer 0) 100
      ∷ Early.frees (answer 0) 5000
      ∷ [];
  hh_report = some "v";
}

abbrev block : Allocation
block = record { slot = 0; trace = 7 ∷ 8 ∷ []; mem = 100; size = 24 }

-- a tracker with one live block, at 100
abbrev ready : Tracker
ready = record initial {
  is_init_done = true;
  source = Source.system;
  report_mode = ReportMode.verbose;
  allocs = block ∷ [];
  alloc_count = pos 1;
  alloc_count_total = 1;
  batches = 1;
  used = 1;
}

abbrev one_live : Live
one_live = put 100 (λ _. false)

ready-IsTracking : IsTracking ready
unfolding total
ready-IsTracking = record {
  counted = refl;
  once = λ n. ground arith;
  tracked = λ p. ground arith;
  dynamic = refl;
  batch = omega arith;
  no_batch = λ e. ground (arith, e);
}

ready-Implements : Implements 0 0 0 ready one_live
unfolding total
ready-Implements = record {
  init_done = refl;
  exit_open = refl;
  inside = refl;
  unlocked = refl;
  found = refl;
  buf_kept = refl;
  size_kept = refl;
  tracking = ready-IsTracking;
  agrees = λ q. ground arith;
}

abbrev calls : List (Answer × Call)
calls =
    (answer 200, mallocs 16)
    ∷ (answer 300, reallocs 200 32)
    ∷ (answer 0, frees 100)
    ∷ (answer 100, strdups 300 5)
    ∷ (answer 400, getlines 100 12)
    ∷ (answer 0, callocs 2 8)
    ∷ (answer 500, getaddrinfos 0 48)
    ∷ (answer 0, freeaddrinfos 500)
    ∷ []

abbrev alive : Option Live → List Ptr → List Bool
alive none ps = []
alive (some s) ps = map s ps

-- The blocks at 300 and 400 are left.
calls_live :
    alive (session_spec 0 0 calls one_live) (100 ∷ 200 ∷ 300 ∷ 400 ∷ 500 ∷ [])
    ≡ (false ∷ false ∷ true ∷ true ∷ false ∷ [])
unfolding session_spec spec_from spec
calls_live = refl

calls_fit : all_fit 0 0 calls one_live ≡ true
unfolding all_fit fit_from spec
calls_fit = refl

one_live_count : (q : Ptr) → count q (100 ∷ []) ≡ (if one_live q then 1 else 0)
unfolding total
one_live_count q = ground arith

abbrev dladdr : ℕ → Option Symbol
dladdr addr = if addr == 7 then some (record { file = some "a.out"; name = some "main" }) else none

-- the report names the leak
ready_report : reference dladdr ready ≡ (
    Line.dladdr_failure
    ∷ Line.leak 1 24 (some "main" ∷ none ∷ [])
    ∷ Line.found (pos 1) 24
    ∷ Line.total 1
    ∷ [])
unfolding reference report_of closing listing leaks_of failures total trace_resolve resolve_symbol
    trace_is_internal trace_sym_is_internal trace_sym_is_func trace_sym_file_starts_with starts_with
ready_report = refl

session-Refines_example :
    Refines 0 0 0 (session_spec 0 0 calls one_live) (session setup calls ready)
session-Refines_example = session-Refines setup calls ready one_live ready-Implements calls_fit

heaph_get_alloc_count-length_example : heaph_get_alloc_count ready ≡ ok (1, ready)
heaph_get_alloc_count-length_example =
    heaph_get_alloc_count-length (100 ∷ []) ready-Implements one_live_count (omega arith)

heaph_atexit-reference_example :
    heaph_atexit dladdr ready ≡ ok (record ready { is_exit_done = true }, reference dladdr ready)
heaph_atexit-reference_example = heaph_atexit-reference dladdr ready ready-IsTracking refl refl

-- inside of getaddrinfo
abbrev inside : Tracker
inside = record ready { depth = 1 }

aside_unchanged_example :
    (malloc setup (answer 200) 16 inside ≡ ok (200, inside))
    × (calloc setup (answer 200) 2 16 inside ≡ ok (200, inside))
    × (realloc setup (answer 200) 100 16 inside ≡ ok (200, inside))
    × (free setup (answer 200) 100 inside ≡ ok inside)
aside_unchanged_example =
    aside_unchanged setup (answer 200) 100 2 16 inside
      (record { init_done = refl; found = refl; aside = refl })

free-free_example : (free setup (answer 0) 100 ready >>= free setup (answer 0) 100) ≡ fault
free-free_example =
    free-free setup 100 refl refl (answer 0) (answer 0) ready one_live ready-Implements

-- The block at 100 is live: realloc has found no memory for its 5000 bytes.
realloc-free_example :
    (realloc setup (answer 0) 100 5000 ready >>= λ r. free setup (answer 0) 100 r.1) ≡ fault
realloc-free_example =
    realloc-free setup 100 refl refl (answer 0) (answer 0) 5000 ready one_live ready-Implements refl

-- a tracker with no live block
abbrev freed : Tracker
freed = record initial {
  is_init_done = true;
  source = Source.system;
  report_mode = ReportMode.verbose;
  alloc_count_total = 3;
}
