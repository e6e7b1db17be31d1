-- ===== src/HeapHelp/Refinement/Bodies.antt =====
-- The bodies of the calls, from their first line behind heaph_touch to their last.
use iu_sp.Base.{
  ℕ, ◌+◌, ◌-◌, ◌≡◌, ◌⊎◌, refl, subst, Bool, true, false, not, ◌&&◌, Option, some, List, arith, ◌==◌,
  Run, ok, ◌>>=◌, Returns, returns, Bool-cases, inl, inr,
}
use iu_sp.HeapHelp.State.{Ptr, Tracker, in_buffer}
use iu_sp.HeapHelp.Track.{alloc_trace_new, alloc_free}
use iu_sp.HeapHelp.Bodies.{Answer, enter, leave, trace_result, trace_realloc, trace_line}
use iu_sp.HeapHelp.Invariant.{IsTracking}
use iu_sp.HeapHelp.Spec.{
  Live, put, drop, allocate, release, then_put, move, reread, Implements, Refines, aborts, goes,
}
use iu_sp.HeapHelp.Refinement.Steps.{alloc_trace_new-put, alloc_free-release}

-- the tracker of a call, and the one that it leaves
abbrev pub state : Run (Ptr × Tracker) → Run Tracker
state m = m >>= λ r. ok r.1

IsTracking-depth : (n : ℕ) (t : Tracker) → IsTracking t → IsTracking (record t { depth = n })
IsTracking-depth n t v = record {
  counted = v.counted;
  once = v.once;
  tracked = v.tracked;
  dynamic = v.dynamic;
  batch = v.batch;
  no_batch = v.no_batch;
}

release-dead : (p res : Ptr) (s s' : Live) → s res ≡ false → release p s ≡ some s' → s' res ≡ false
release-dead p res s s' dead e = elim (Bool-cases (s p)) [
  | inl live ↦
      let kept : some (drop p s) ≡ some s' = ground (arith, e, live) in
      let same : drop p s ≡ s' = cc in
      subst (λ (f : Live). f res ≡ false) same (ground (arith, dead))
  | inr gone ↦ ground (arith, e, gone)
]

-- a new block
abbrev pub fresh : (buf size : ℕ) → Ptr → Live → Bool
fresh buf size res s = not (in_buffer buf size res) && not (s res)

both_false : (b c : Bool) → (not b && not c) ≡ true → (b ≡ false) × (c ≡ false)
both_false b c e = ground arith

module _ {buf size : ℕ} where
  depth-Implements :
      (n m : ℕ) {k : ℕ} {t : Tracker} {s : Live}
      → n ≡ m
      → Implements buf size k t s
      → Implements buf size m (record t { depth = n }) s
  depth-Implements n m {k} {t} e i = record {
    init_done = i.init_done;
    exit_open = i.exit_open;
    inside = e;
    unlocked = i.unlocked;
    found = i.found;
    buf_kept = i.buf_kept;
    size_kept = i.size_kept;
    tracking = IsTracking-depth n t i.tracking;
    agrees = i.agrees;
  }

  pub enter-Implements :
      {t : Tracker} {s : Live} → Implements buf size 0 t s → Implements buf size 1 (enter t) s
  enter-Implements {t} i = depth-Implements (t.depth + 1) 1 (omega (arith, i.inside)) i

  pub leave-Implements :
      {t : Tracker} {s : Live} → Implements buf size 1 t s → Implements buf size 0 (leave t) s
  leave-Implements {t} i = depth-Implements (t.depth - 1) 0 (omega (arith, i.inside)) i

  leave-Returns :
      (res : Ptr) {s : Live} {m : Run Tracker}
      → Returns (λ u. Implements buf size 1 u s) m
      → Refines buf size 0 (some s) (state (m >>= λ u. ok (res, leave u)))
  leave-Returns res (returns i) = goes (leave-Implements i)

  leave-Refines :
      (res : Ptr) {o : Option Live} {m : Run Tracker}
      → Refines buf size 1 o m
      → Refines buf size 0 o (state (m >>= λ u. ok (res, leave u)))
  leave-Refines res aborts = aborts
  leave-Refines res (goes i) = goes (leave-Implements i)

  -- a block is freed, and another one tracked
  moved-Refines :
      (res : Ptr) (n : ℕ) (backtrace : List ℕ) {o : Option Live} {m : Run Tracker}
      → in_buffer buf size res ≡ false
      → ((s : Live) → o ≡ some s → s res ≡ false)
      → Refines buf size 1 o m
      → Refines buf size 0
          (then_put res o)
          (state (m >>= λ u. alloc_trace_new res n backtrace u >>= λ v. ok (res, leave v)))
  moved-Refines res n backtrace dynamic dead aborts = aborts
  moved-Refines res n backtrace dynamic dead (goes {s} i) =
      leave-Returns res (alloc_trace_new-put i res dynamic n backtrace (dead s refl))

  module _ {t : Tracker} {s : Live} (i : Implements buf size 1 t s) (ans : Answer) (n : ℕ) where
    abbrev IsNew : Type 0
    IsNew = fresh buf size ans.result s ≡ true

    track-put :
        IsNew
        → Returns
            (λ u. Implements buf size 1 u (put ans.result s))
            (alloc_trace_new ans.result n ans.backtrace t)
    track-put new =
        let facts = both_false (in_buffer buf size ans.result) (s ans.result) new in
        alloc_trace_new-put i ans.result facts.0 n ans.backtrace facts.1

    pub trace_result-allocate :
        ((ans.result == 0) ≡ true) ⊎ IsNew
        → Refines buf size 0 (allocate ans.result s) (state (trace_result n ans (ans.result, t)))
    unfolding trace_result
    trace_result-allocate new = elim (Bool-cases (ans.result == 0)) [
      | inl none_given ↦ rw none_given (goes (leave-Implements i))
      | inr given ↦ elim new [
        | inl e ↦ ground (arith, e, given)
        | inr e ↦ rw given (leave-Returns ans.result (track-put e))
      ]
    ]

    moved :
        (q : Ptr)
        → in_buffer buf size q ≡ false
        → IsNew
        → Refines buf size 0 (then_put ans.result (release q s)) (
            state (
              alloc_free q t >>= λ u.
              alloc_trace_new ans.result n ans.backtrace u >>= λ v. ok (ans.result, leave v)))
    moved q dynamic new =
        let facts = both_false (in_buffer buf size ans.result) (s ans.result) new in
        moved-Refines ans.result n ans.backtrace facts.0
          (λ s' e. release-dead q ans.result s s' facts.1 e) (alloc_free-release i q dynamic)

    -- the answers to a call that may return the old block
    answer_new :
        (q : Ptr)
        → (ans.result == 0) ≡ false
        → (ans.result == q) ≡ false
        → ((ans.result == 0) ≡ true) ⊎ ((ans.result == q) ≡ true) ⊎ IsNew
        → IsNew
    answer_new q given other (inl e) = ground (arith, e, given)
    answer_new q given other (inr (inl e)) = ground (arith, e, other)
    answer_new q given other (inr (inr e)) = e

    pub trace_realloc-move :
        (q : Ptr)
        → in_buffer buf size q ≡ false
        → ((ans.result == 0) ≡ true) ⊎ ((ans.result == q) ≡ true) ⊎ IsNew
        → Refines buf size 0 (move ans.result q s) (state (trace_realloc ans q n (ans.result, t)))
    unfolding trace_realloc
    trace_realloc-move q dynamic new = elim (Bool-cases (q == 0)) [
      | inl null ↦ elim (Bool-cases (ans.result == 0)) [
        | inl nothing ↦ rw null (rw nothing (goes (leave-Implements i)))
        | inr given ↦
            let other : (ans.result == q) ≡ false = ground (arith, null, given) in
            rw null (rw given (leave-Returns ans.result (track-put (answer_new q given other new))))
      ]
      | inr old ↦ elim (Bool-cases (ans.result == 0)) [
        | inl nothing ↦
            rw old (rw nothing (leave-Refines ans.result (alloc_free-release i q dynamic)))
        | inr given ↦ elim (Bool-cases (ans.result == q)) [
          | inl same ↦ rw old (rw given (rw same (goes (leave-Implements i))))
          | inr other ↦
              rw old (rw given (rw other (moved q dynamic (answer_new q given other new))))
        ]
      ]
    ]

module _ {buf size : ℕ} {t : Tracker} {s : Live} (i : Implements buf size 1 t s)
    (ans : Answer) where
  pub trace_line-reread :
      (p : Ptr) (length : ℕ)
      → in_buffer buf size p ≡ false
      → ((ans.result == 0) ≡ true)
        ⊎ ((ans.result == p) ≡ true)
        ⊎ (fresh buf size ans.result s ≡ true)
      → Refines buf size 0 (reread ans.result p s) (state (trace_line ans p length (ans.result, t)))
  unfolding trace_line
  trace_line-reread p length dynamic new =
      let n = length + 1 in
      elim (Bool-cases (p == 0)) [
        | inl null ↦ elim (Bool-cases (ans.result == 0)) [
          | inl nothing ↦
              let same : (p == ans.result) ≡ true = ground (arith, null, nothing) in
              rw null (rw nothing (rw same (goes (leave-Implements i))))
          | inr given ↦
              let other : (ans.result == p) ≡ false = ground (arith, null, given) in
              rw null (
                rw given (
                  leave-Returns ans.result
                    (track-put i ans n (answer_new i ans n p given other new))))
        ]
        | inr old ↦ elim (Bool-cases (ans.result == 0)) [
          | inl nothing ↦ rw old (rw nothing aborts)
          | inr given ↦ elim (Bool-cases (p == ans.result)) [
            | inl same ↦ rw old (rw given (rw same (goes (leave-Implements i))))
            | inr apart ↦
                let other : (ans.result == p) ≡ false = ground (arith, apart) in
                rw old (
                  rw given
                    (rw apart (moved i ans n p dynamic (answer_new i ans n p given other new))))
          ]
        ]
      ]
