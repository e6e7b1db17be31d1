-- ===== src/HeapHelp/Tracking/Pushing.antt =====
-- A new allocation goes to the front of the list.
use iu_sp.Base.{
  ℕ, suc, ◌+◌, ◌≡◌, refl, ap, ◌∙◌, true, false, Bool, List, ◌∷◌, arith, total, length, take,
  Returns, returns, Returns-map,
}
use iu_sp.Int.{pos, suc_ℤ}
use iu_sp.HeapHelp.State.{
  Allocation, Ptr, Tracker, max_backtrace_len, alloc_is_static, in_buffer, lock_allocs-ok,
  unlock_allocs, unlock_allocs-ok,
}
use iu_sp.HeapHelp.Track.{take_object, push_object, track, track_object}
use iu_sp.HeapHelp.Invariant.{IsTracking, IsTracking-relocked, holds, static_entry}
use iu_sp.HeapHelp.Tracking.{Kept, Kept-relocked}
use iu_sp.HeapHelp.Tracking.Objects.{Facts, Taken-Facts, Taken, take_object-Taken}

-- the allocation xs it is tracked
abbrev pub entry : ℕ → Ptr → ℕ → List ℕ → Allocation
entry slot p size backtrace = record {
  slot = slot;
  trace = take max_backtrace_len backtrace;
  mem = p;
  size = size;
}

pub record Tracked (t : Tracker) (p : Ptr) (size : ℕ) (backtrace : List ℕ) (u : Tracker)
    : Type 0 where
  pub tracking : IsTracking u
  pub kept : Kept t u
  pub slot : ℕ
  pub front : u.allocs ≡ entry slot p size backtrace ∷ t.allocs

static-push :
    (buf size buf' size' : ℕ) (a : Allocation) (xs xs' : List Allocation)
    → buf' ≡ buf
    → size' ≡ size
    → xs' ≡ xs
    → in_buffer buf size a.mem ≡ false
    → total (static_entry buf size) xs ≡ 0
    → total (static_entry buf' size') (a ∷ xs') ≡ 0
unfolding total
static-push buf size buf' size' a xs xs' e f same dynamic none_before =
    let base : static_entry buf size a + total (static_entry buf size) xs ≡ 0 =
      rw dynamic (omega arith) in
    (λ i. total (static_entry (e i) (f i)) (a ∷ same i)) ∙ base

suc-length : (xs ys : List Allocation) → xs ≡ ys → suc_ℤ (pos (length ys)) ≡ pos (suc (length xs))
unfolding suc_ℤ
suc-length xs ys e = rw e refl

module _ (t : Tracker) (p : Ptr) (size : ℕ) (backtrace : List ℕ) (v : IsTracking t) where
  push_object-Tracked :
      (a : Allocation) (u : Tracker)
      → total (holds p) t.allocs ≡ 0
      → alloc_is_static t p ≡ false
      → Facts t a u
      → Tracked t p size backtrace
          (record (push_object (entry a.slot p size backtrace) u) { allocs_lock = false })
  unfolding push_object total alloc_is_static
  push_object-Tracked a u fresh dynamic f = record {
    tracking = record {
      counted = ap suc_ℤ (f.count ∙ v.counted) ∙ suc-length u.allocs t.allocs f.allocs;
      once = λ n. omega (arith, f.once n);
      tracked = λ q. ground (arith, v.tracked q, fresh, ap (total (holds q)) f.allocs);
      dynamic =
          static-push t.static_buf t.static_size u.static_buf u.static_size
            (entry a.slot p size backtrace) t.allocs u.allocs f.buf f.size f.allocs dynamic
            v.dynamic;
      batch = f.batch;
      no_batch = f.no_batch;
    };
    kept = record {
      init_done = f.init_done;
      exit_done = f.exit_done;
      depth = f.depth;
      unlocked = refl;
      source = f.source;
      mode = f.mode;
      buf = f.buf;
      size = f.size;
    };
    slot = a.slot;
    front = ap (λ xs. entry a.slot p size backtrace ∷ xs) f.allocs;
  }

Tracked-relocked :
    (b : Bool) (t : Tracker) (p : Ptr) (size : ℕ) (backtrace : List ℕ) (u : Tracker)
    → Tracked (record t { allocs_lock = b }) p size backtrace u
    → Tracked t p size backtrace u
Tracked-relocked b t p size backtrace u r = record {
  tracking = r.tracking;
  kept = Kept-relocked b t u r.kept;
  slot = r.slot;
  front = r.front;
}

-- the rest of track, once an object is there
track_object-Tracked :
    (t : Tracker) (p : Ptr) (size : ℕ) (backtrace : List ℕ) (r : Allocation × Tracker)
    → IsTracking t
    → t.allocs_lock ≡ true
    → total (holds p) t.allocs ≡ 0
    → alloc_is_static t p ≡ false
    → Taken t r
    → Returns (Tracked t p size backtrace) (track_object p size backtrace r)
unfolding track_object unlock_allocs push_object
track_object-Tracked t p size backtrace (a, u) v locked fresh dynamic taken =
    let f = Taken-Facts v taken in
    let w = record u { allocs_lock = false } in
    rw (unlock_allocs-ok u (f.locked ∙ locked), lock_allocs-ok w refl)
      (returns (push_object-Tracked t p size backtrace v a u fresh dynamic f))

pub track-Tracked :
    (t : Tracker) (p : Ptr) (size : ℕ) (backtrace : List ℕ)
    → IsTracking t
    → t.allocs_lock ≡ false
    → total (holds p) t.allocs ≡ 0
    → alloc_is_static t p ≡ false
    → Returns (Tracked t p size backtrace) (track p size backtrace t)
unfolding track alloc_is_static
track-Tracked t p size backtrace v unlocked fresh dynamic =
    let locked : Tracker = record t { allocs_lock = true } in
    let w = IsTracking-relocked true t v in
    rw (lock_allocs-ok t unlocked) (
      Returns-map
        (track_object-Tracked locked p size backtrace (take_object locked) w refl fresh dynamic
          (take_object-Taken locked w))
        λ u r. Tracked-relocked true t p size backtrace u r)
