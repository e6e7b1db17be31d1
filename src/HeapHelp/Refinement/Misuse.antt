-- ===== src/HeapHelp/Refinement/Misuse.antt =====
-- A block that is no longer tracked, and is freed.
use iu_sp.Base.{
  ℕ, ◌≡◌, refl, sym, ap, ◌∙◌, subst, Bool, true, false, ◌||◌, Option, none, some, arith, ◌==◌,
  if◌then◌else◌, if-false, if-true, out_of_fuel, Run, ok, fault, ◌>>=◌, Bool-cases, inl, inr,
}
use iu_sp.HeapHelp.State.{Ptr, Tracker, in_buffer}
use iu_sp.HeapHelp.Bodies.{Answer}
use iu_sp.HeapHelp.Init.{Setup}
use iu_sp.HeapHelp.Calls.{realloc, free}
use iu_sp.HeapHelp.Spec.{
  Live, drop, allocate, release, move, fits, spec, reallocs, Implements, Refines, aborts, goes,
  call,
}
use iu_sp.HeapHelp.Refinement.Calls.{call-Refines, free-release}
use iu_sp.HeapHelp.Refinement.Bodies.{state}

-- a run that the specification aborts
Refines-fault :
    {buf size : ℕ} {o : Option Live} {m : Run Tracker}
    → Refines buf size 0 o m
    → o ≡ none
    → m ≡ fault
Refines-fault aborts e = refl
Refines-fault (goes i) e = cc

released : (p : Ptr) (s s' : Live) → release p s ≡ some s' → s' p ≡ false
released p s s' e = elim (Bool-cases (s p)) [
  | inl live ↦
      let kept : some (drop p s) ≡ some s' = ground (arith, e, live) in
      let same : drop p s ≡ s' = cc in subst (λ (f : Live). f p ≡ false) same (ground arith)
  | inr gone ↦ ground (arith, e, gone)
]

or_false : {b c : Bool} → b ≡ false → c ≡ false → (b || c) ≡ false
or_false eb ec = rw eb ec

-- a call that returns an address, before another call
state-bind :
    {A : Type 0} (m : Run (Ptr × Tracker)) (f : Tracker → Run A)
    → (state m >>= f) ≡ (m >>= λ r. f r.1)
state-bind (ok r) f = refl
state-bind fault f = refl
state-bind out_of_fuel f = refl

module _ {buf size : ℕ} (setup : Setup) (p : Ptr) (real : (p == 0) ≡ false)
    (dynamic : in_buffer buf size p ≡ false) where
  free-tracked :
      (ans : Answer) {t : Tracker} {s : Live}
      → Implements buf size 0 t s
      → Refines buf size 0 (release p s) (free setup ans p t)
  free-tracked ans {t} {s} i =
      subst (λ o. Refines buf size 0 o (free setup ans p t))
        (if-false (some s) (release p s) (or_false real dynamic)) (free-release i setup ans p)

  free-dead :
      (ans : Answer) {t : Tracker} {s : Live}
      → Implements buf size 0 t s
      → s p ≡ false
      → free setup ans p t ≡ fault
  free-dead ans {s = s} i dead =
      Refines-fault (free-tracked ans i) (if-false (some (drop p s)) none dead)

  -- a run that leaves the address untracked, and another free
  after-free :
      (ans : Answer) (s : Live) {o : Option Live} {m : Run Tracker}
      → o ≡ release p s
      → Refines buf size 0 o m
      → (m >>= free setup ans p) ≡ fault
  after-free ans s e aborts = refl
  after-free ans s e (goes {s = s'} i) = free-dead ans i (released p s s' (sym e))

  -- In a tracker at work, a second free of an address that is not NULL and not in the static buffer,
  -- with no call in between, aborts the program, whatever is live.
  pub free-free :
      (ans ans' : Answer) (t : Tracker) (s : Live)
      → Implements buf size 0 t s
      → (free setup ans p t >>= free setup ans' p) ≡ fault
  free-free ans ans' t s i = after-free ans' s refl (free-tracked ans i)

  -- In a tracker at work, after a realloc to which the C library has answered NULL, for whatever size, a
  -- free of the block, which is not NULL and not in the static buffer, aborts the program.
  pub realloc-free :
      (ans ans' : Answer) (n : ℕ) (t : Tracker) (s : Live)
      → Implements buf size 0 t s
      → (ans.result == 0) ≡ true
      → (realloc setup ans p n t >>= λ r. free setup ans' p r.1) ≡ fault
  unfolding spec call
  realloc-free ans ans' n t s i nothing =
      let answered : fits buf size ans (reallocs p n) s ≡ true = rw nothing refl in
      sym (state-bind (realloc setup ans p n t) (free setup ans' p))
      ∙ after-free ans' s
          (ap (λ b. move ans.result (if b then 0 else p) s) dynamic
            ∙ if-false (allocate ans.result s) _ real
            ∙ if-true (release p s) _ nothing)
          (call-Refines i setup ans (reallocs p n) answered)
