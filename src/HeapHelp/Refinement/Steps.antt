-- ===== src/HeapHelp/Refinement/Steps.antt =====
-- alloc_trace_new and alloc_free inside of a call.
use iu_sp.Base.{
  ℕ, ◌≡◌, sym, subst, ap, ◌∙◌, true, false, List, arith, if◌then◌else◌, total, Run, Returns,
  Returns-map,
}
use iu_sp.HeapHelp.State.{Ptr, Tracker, in_buffer, alloc_is_static}
use iu_sp.HeapHelp.Track.{alloc_trace_new, alloc_free, track, untrack}
use iu_sp.HeapHelp.Invariant.{IsTracking, holds}
use iu_sp.HeapHelp.Tracking.{Kept}
use iu_sp.HeapHelp.Tracking.Pushing.{Tracked, track-Tracked}
use iu_sp.HeapHelp.Tracking.Unlinking.{Freed, unknown, freed, untrack-Freed}
use iu_sp.HeapHelp.Spec.{Live, put, release, Implements, Refines, aborts, goes}

module _ {buf size depth : ℕ} {t : Tracker} {s : Live} (i : Implements buf size depth t s) where
  pub static-in_buffer : (p : Ptr) → alloc_is_static t p ≡ in_buffer buf size p
  unfolding alloc_is_static
  static-in_buffer p =
      ap (λ b. in_buffer b t.static_size p) i.buf_kept ∙ ap (λ n. in_buffer buf n p) i.size_kept

  kept-Implements :
      {u : Tracker} {s' : Live}
      → Kept t u
      → IsTracking u
      → ((q : Ptr) → total (holds q) u.allocs ≡ (if s' q then 1 else 0))
      → Implements buf size depth u s'
  kept-Implements k v live = record {
    init_done = k.init_done ∙ i.init_done;
    exit_open = k.exit_done ∙ i.exit_open;
    inside = k.depth ∙ i.inside;
    unlocked = k.unlocked;
    found = k.source ∙ i.found;
    buf_kept = k.buf ∙ i.buf_kept;
    size_kept = k.size ∙ i.size_kept;
    tracking = v;
    agrees = live;
  }

module _ {buf size : ℕ} {t : Tracker} {s : Live} (i : Implements buf size 1 t s) (p : Ptr)
    (dynamic : in_buffer buf size p ≡ false) where
  tracked-Implements :
      (n : ℕ) (backtrace : List ℕ) (u : Tracker)
      → s p ≡ false
      → Tracked t p n backtrace u
      → Implements buf size 1 u (put p s)
  unfolding total
  tracked-Implements n backtrace u free r =
      kept-Implements i r.kept r.tracking
        (λ q. ap (total (holds q)) r.front ∙ ground (arith, i.agrees q, free))

  alloc_trace_new-track :
      (n : ℕ) (backtrace : List ℕ) → alloc_trace_new p n backtrace t ≡ track p n backtrace t
  unfolding alloc_trace_new
  alloc_trace_new-track n backtrace = ground (arith, static-in_buffer i p)

  pub alloc_trace_new-put :
      (n : ℕ) (backtrace : List ℕ)
      → s p ≡ false
      → Returns (λ u. Implements buf size 1 u (put p s)) (alloc_trace_new p n backtrace t)
  alloc_trace_new-put n backtrace free =
      subst (Returns (λ u. Implements buf size 1 u (put p s)))
        (sym (alloc_trace_new-track n backtrace))
        (Returns-map
          (track-Tracked t p n backtrace i.tracking i.unlocked (ground (arith, i.agrees p, free))
            (static-in_buffer i p ∙ dynamic))
          λ u r. tracked-Implements n backtrace u free r)

  alloc_free-untrack : alloc_free p t ≡ untrack p t
  unfolding alloc_free
  alloc_free-untrack = ground (arith, static-in_buffer i p)

  Freed-Refines : {r : Run Tracker} → Freed t p r → Refines buf size 1 (release p s) r
  Freed-Refines (unknown nowhere) =
      let dead : s p ≡ false = ground (arith, i.agrees p) in rw dead aborts
  Freed-Refines (freed u one e) =
      let live : s p ≡ true = ground (arith, i.agrees p) in
      rw live (
        goes (kept-Implements i e.kept e.tracking (λ q. ground (arith, e.live q, i.agrees q, one))))

  pub alloc_free-release : Refines buf size 1 (release p s) (alloc_free p t)
  alloc_free-release =
      subst (Refines buf size 1 (release p s)) (sym alloc_free-untrack)
        (Freed-Refines (untrack-Freed t p i.tracking i.unlocked))
