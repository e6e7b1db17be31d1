-- ===== src/HeapHelp/Tracking/Unlinking.antt =====
-- A freed allocation goes from the list to the pool; an address that is not tracked is a fault.
use iu_sp.Base.{
  ℕ, suc, ◌+◌, ◌≡◌, refl, sym, subst, ap, ◌∙◌, not, true, false, Bool, Option, none, some, List, [],
  ◌∷◌, arith, ◌==◌, if◌then◌else◌, total, length, Run, ok, fault, ◌>>=◌, assert, Bool-cases, inl,
  inr,
}
use iu_sp.Int.{ℤ, pos, pred_ℤ, ltb_ℤ}
use iu_sp.HeapHelp.State.{Allocation, Ptr, Tracker, lock_allocs-ok, unlock_allocs-ok}
use iu_sp.HeapHelp.Track.{keep, unlink, pool_object, untrack}
use iu_sp.HeapHelp.Invariant.{IsTracking, IsTracking-relocked, static_entry, is_slot, holds}
use iu_sp.HeapHelp.Tracking.{Kept, Kept-relocked}

-- the search: no object of the address, or one, which is taken out
pub data Unlinked (xs : List Allocation) (p : Ptr)
    : Option (List Allocation × Allocation) → Type 0 where
  absent : total (holds p) xs ≡ 0 → Unlinked xs p none
  present :
      (left : List Allocation) (a : Allocation)
      → a.mem ≡ p
      → length xs ≡ suc (length left)
      → ((w : Allocation → ℕ) → total w left + w a ≡ total w xs)
      → Unlinked xs p (some (left, a))

keep-Unlinked :
    (a : Allocation) (xs : List Allocation) (p : Ptr) {r : Option (List Allocation × Allocation)}
    → (a.mem == p) ≡ false
    → Unlinked xs p r
    → Unlinked (a ∷ xs) p (keep a r)
unfolding keep total
keep-Unlinked a xs p other (absent nowhere) = absent (rw other (omega arith))
keep-Unlinked a xs p other (present left b same size weights) =
    present (a ∷ left) b same (omega arith) (λ w. omega (arith, weights w))

pub unlink-Unlinked : (xs : List Allocation) (p : Ptr) → Unlinked xs p (unlink xs p)
unfolding unlink total
unlink-Unlinked [] p = absent refl
unlink-Unlinked (a ∷ xs) p = elim (Bool-cases (a.mem == p)) [
  | inl same ↦ rw same (present xs a (ground arith) refl (λ w. omega arith))
  | inr other ↦ rw other (keep-Unlinked a xs p other (unlink-Unlinked xs p))
]

-- what a freed address leaves
pub record Untracked (t : Tracker) (p : Ptr) (u : Tracker) : Type 0 where
  pub tracking : IsTracking u
  pub kept : Kept t u
  pub live :
      (q : Ptr) → total (holds q) u.allocs + (if p == q then 1 else 0) ≡ total (holds q) t.allocs

freed_count : {n : ℤ} (m : ℕ) → n ≡ pos (suc m) → pred_ℤ n ≡ pos m
unfolding pred_ℤ
freed_count m e = ap pred_ℤ e

-- how alloc_free ends: the address was tracked nowhere, or once
pub data Freed (t : Tracker) (p : Ptr) : Run Tracker → Type 0 where
  unknown : total (holds p) t.allocs ≡ 0 → Freed t p fault
  freed : (u : Tracker) → total (holds p) t.allocs ≡ 1 → Untracked t p u → Freed t p (ok u)

not_negative : (m : ℕ) → assert (not (ltb_ℤ (pos m) (pos 0))) ≡ ok tt
not_negative m = ground arith

-- the state after a successful search
abbrev freed_state : Tracker → List Allocation → Allocation → Tracker
freed_state t left a = record t {
  allocs = left;
  alloc_pool = a ∷ t.alloc_pool;
  alloc_count = pred_ℤ t.alloc_count;
  allocs_lock = false;
}

module _ (t : Tracker) (p : Ptr) (v : IsTracking t) where
  pool_object-freed :
      (left : List Allocation) (a : Allocation)
      → t.allocs_lock ≡ true
      → pred_ℤ t.alloc_count ≡ pos (length left)
      → pool_object t (some (left, a)) ≡ ok (freed_state t left a)
  unfolding pool_object
  pool_object-freed left a locked count =
      let moved : Tracker = record t {
        allocs = left;
        alloc_pool = a ∷ t.alloc_pool;
        alloc_count = pred_ℤ t.alloc_count;
      } in
      rw
        (
          unlock_allocs-ok moved locked,
          ap (λ n. assert (not (ltb_ℤ n (pos 0)))) count ∙ not_negative (length left),
        )
        refl

  freed_state-Untracked :
      (left : List Allocation) (a : Allocation)
      → a.mem ≡ p
      → pred_ℤ t.alloc_count ≡ pos (length left)
      → ((w : Allocation → ℕ) → total w left + w a ≡ total w t.allocs)
      → Untracked t p (freed_state t left a)
  unfolding total
  freed_state-Untracked left a same count weights = record {
    tracking = record {
      counted = count;
      once = λ n. omega (arith, v.once n, weights (is_slot n));
      tracked = λ q. omega (arith, v.tracked q, weights (holds q));
      dynamic = omega (arith, v.dynamic, weights (static_entry t.static_buf t.static_size));
      batch = v.batch;
      no_batch = v.no_batch;
    };
    kept = record {
      init_done = refl;
      exit_done = refl;
      depth = refl;
      unlocked = refl;
      source = refl;
      mode = refl;
      buf = refl;
      size = refl;
    };
    live = λ q. ground (arith, weights (holds q));
  }

  pool_object-Freed :
      (r : Option (List Allocation × Allocation))
      → t.allocs_lock ≡ true
      → Unlinked t.allocs p r
      → Freed t p (pool_object t r)
  unfolding pool_object total
  pool_object-Freed none locked (absent nowhere) =
      subst (Freed t p) (sym (ap (λ m. m >>= λ t1. fault) (unlock_allocs-ok t locked)))
        (unknown nowhere)
  pool_object-Freed (some (left, a)) locked (present _ _ same size weights) =
      let count = freed_count (length left) (v.counted ∙ ap pos size) in
      subst (Freed t p) (sym (pool_object-freed left a locked count)) (
        freed (freed_state t left a) (ground (arith, weights (holds p), v.tracked p))
          (freed_state-Untracked left a same count weights))

Freed-relocked :
    (b : Bool) (t : Tracker) (p : Ptr) {r : Run Tracker}
    → Freed (record t { allocs_lock = b }) p r
    → Freed t p r
Freed-relocked b t p (unknown nowhere) = unknown nowhere
Freed-relocked b t p (freed u one e) =
    freed u one (record { tracking = e.tracking; kept = Kept-relocked b t u e.kept; live = e.live })

pub untrack-Freed :
    (t : Tracker) (p : Ptr) → IsTracking t → t.allocs_lock ≡ false → Freed t p (untrack p t)
unfolding untrack
untrack-Freed t p v unlocked =
    let locked : Tracker = record t { allocs_lock = true } in
    rw (lock_allocs-ok t unlocked) (
      Freed-relocked true t p (
        pool_object-Freed locked p (IsTracking-relocked true t v) (unlink t.allocs p) refl
          (unlink-Unlinked t.allocs p)))
