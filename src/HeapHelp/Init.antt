-- ===== src/HeapHelp/Init.antt =====
-- heaph_init and heaph_touch. Looking up the C library's functions may itself allocate: those calls
-- come back with the static allocator in place.
use Prim.Native.String.{String}
use text.Mathlib.Text.{◌==◌}
use iu_sp.Base.{
  ℕ, true, not, Option, none, some, List, [], ◌∷◌, ltb, ◌==◌ as nat_eq, if◌then◌else◌, Run, ok,
  ◌>>=◌, ◌>>◌, assert, ◌≡◌, if-true,
}
use iu_sp.HeapHelp.State.{
  Ptr, ReportMode, Source, Tracker, alloc_is_static, heaph_lock, heaph_unlock,
}
use iu_sp.HeapHelp.Bodies.{Answer, malloc_body, calloc_body, free_body}

-- a call that dlsym makes; heaph_touch does nothing in it, as the lock is held
pub data Early : Type 0 where
  mallocs : (ans : Answer) (size : ℕ) → Early
  callocs : (ans : Answer) (num size : ℕ) → Early
  frees : (ans : Answer) (p : Ptr) → Early

unfoldable pub early_call : Early → Tracker → Run Tracker
early_call (Early.mallocs ans size) t = malloc_body ans size t >>= λ r. ok r.1
early_call (Early.callocs ans num size) t = calloc_body ans num size t >>= λ r. ok r.1
early_call (Early.frees ans p) t =
    if nat_eq p 0 then ok t else if alloc_is_static t p then ok t else free_body ans p t

unfoldable pub early_calls : List Early → Tracker → Run Tracker
early_calls [] t = ok t
early_calls (c ∷ cs) t = early_call c t >>= early_calls cs

-- the value of HHREPORT
unfoldable pub read_mode : Option String → ReportMode → ReportMode
read_mode none mode = mode
read_mode (some value) mode =
    if value == "v"
    then ReportMode.verbose
    else if value == "l"
    then ReportMode.leaks
    else if value == "q"
    then ReportMode.quiet
    else mode

-- what the system does during the initialisation
pub record Setup : Type 0 where
  pub early : List Early
  pub hh_report : Option String

unfoldable pub heaph_init : Setup → Tracker → Run Tracker
heaph_init setup t = early_calls setup.early (record t { source = Source.static }) >>= λ u.
    ok (record u { source = Source.system; report_mode = read_mode setup.hh_report u.report_mode })

unfoldable pub heaph_touch : Setup → Tracker → Run Tracker
heaph_touch setup t =
    let first = heaph_lock t >>= heaph_init setup >>= λ u.
    heaph_unlock (record u { is_init_done = true }) >>= λ v. assert (not u.is_init_done) >> ok v in
    if t.is_init_done then ok t else if ltb 0 t.init_lock_count then ok t else first

-- once the tracker is initialised
pub heaph_touch-done :
    (setup : Setup) (t : Tracker) → t.is_init_done ≡ true → heaph_touch setup t ≡ ok t
unfolding heaph_touch
heaph_touch-done setup t e = if-true (ok t) _ e
