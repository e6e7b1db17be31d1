-- ===== src/HeapHelp/Refinement/Sessions.antt =====
-- Sessions: any sequence of calls, with what the C library answers to each.
use iu_sp.Base.{
  ℕ, ◌≡◌, Bool, true, ◌&&◌, and_true, Option, none, some, List, [], ◌∷◌, Run, ok, ◌>>=◌,
}
use iu_sp.HeapHelp.State.{Tracker}
use iu_sp.HeapHelp.Bodies.{Answer}
use iu_sp.HeapHelp.Init.{Setup}
use iu_sp.HeapHelp.Spec.{Call, Live, fits, spec, Implements, Refines, aborts, goes, call}
use iu_sp.HeapHelp.Refinement.Calls.{call-Refines}

unfoldable pub session : Setup → List (Answer × Call) → Tracker → Run Tracker
session setup [] t = ok t
session setup ((ans, c) ∷ cs) t = call setup ans c t >>= session setup cs

-- where the program is aborted, nothing follows
unfoldable pub spec_from : (Live → Option Live) → Option Live → Option Live
spec_from f none = none
spec_from f (some s) = f s

unfoldable pub fit_from : (Live → Bool) → Option Live → Bool
fit_from f none = true
fit_from f (some s) = f s

module _ (buf size : ℕ) where
  -- the live blocks after the calls
  unfoldable pub session_spec : List (Answer × Call) → Live → Option Live
  session_spec [] s = some s
  session_spec ((ans, c) ∷ cs) s = spec_from (session_spec cs) (spec buf size ans c s)

  -- the answers fit the blocks that are live when they come
  unfoldable pub all_fit : List (Answer × Call) → Live → Bool
  all_fit [] s = true
  all_fit ((ans, c) ∷ cs) s = fits buf size ans c s && fit_from (all_fit cs) (spec buf size ans c s)

session-from :
    {buf size : ℕ} {f : Live → Option Live} {g : Live → Bool} {h : Tracker → Run Tracker}
    {o : Option Live} {m : Run Tracker}
    → ((t : Tracker) (s : Live)
        → Implements buf size 0 t s
        → g s ≡ true
        → Refines buf size 0 (f s) (h t))
    → Refines buf size 0 o m
    → fit_from g o ≡ true
    → Refines buf size 0 (spec_from f o) (m >>= h)
unfolding spec_from fit_from
session-from later aborts e = aborts
session-from later (goes {s = s} {t = t} i) e = later t s i e

-- A tracker at work that knows the live blocks keeps to the specification over any sequence of calls
-- whose answers fit: it goes on with the live blocks that the specification tells, and the program is
-- aborted exactly where the specification says so.
pub session-Refines :
    {buf size : ℕ} (setup : Setup) (cs : List (Answer × Call)) (t : Tracker) (s : Live)
    → Implements buf size 0 t s
    → all_fit buf size cs s ≡ true
    → Refines buf size 0 (session_spec buf size cs s) (session setup cs t)
unfolding session session_spec all_fit
session-Refines setup [] t s i f = goes i
session-Refines {buf} {size} setup ((ans, c) ∷ cs) t s i f =
    let both = and_true (fits buf size ans c s) _ f in
    session-from (λ u s' i' f'. session-Refines setup cs u s' i' f')
      (call-Refines i setup ans c both.0) both.1
