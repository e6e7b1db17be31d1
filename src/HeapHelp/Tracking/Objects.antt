-- ===== src/HeapHelp/Tracking/Objects.antt =====
-- The object for a new allocation: from the pool, next in its batch, or the first of a new one.
use iu_sp.Base.{
  ℕ, ◌+◌, ◌-◌, ◌*◌, ◌≤◌, ◌<◌, ◌≡◌, refl, ap, ◌||◌, List, [], ◌∷◌, arith, ◌==◌, total, Bool-cases,
  inl, inr,
}
use iu_sp.HeapHelp.State.{Allocation, Tracker, allocation_batch_size}
use iu_sp.HeapHelp.Track.{object, take_fresh, take_from, take_object}
use iu_sp.HeapHelp.Invariant.{IsTracking, is_slot, issued, issued_once}

pub data Taken (t : Tracker) : Allocation × Tracker → Type 0 where
  pooled :
      (a : Allocation) (rest : List Allocation)
      → t.alloc_pool ≡ a ∷ rest
      → Taken t (a, record t { alloc_pool = rest })
  next :
      0 < t.batches
      → t.used < allocation_batch_size
      → Taken t (
        object ((t.batches - 1) * allocation_batch_size + t.used),
        record t { used = t.used + 1 },
      )
  mapped :
      issued t ≡ t.batches * allocation_batch_size
      → Taken t (
        object (t.batches * allocation_batch_size),
        record t { batches = t.batches + 1; used = 1 },
      )

take_fresh-Taken : (t : Tracker) → IsTracking t → Taken t (take_fresh t)
unfolding take_fresh
take_fresh-Taken t v = elim (Bool-cases ((t.batches == 0) || (t.used == allocation_batch_size))) [
  | inl full ↦ rw full (mapped (ground (arith, v.no_batch)))
  | inr room ↦ rw room (next (ground arith) (ground (arith, v.batch)))
]

take_from-Taken :
    (pool : List Allocation) (t : Tracker)
    → IsTracking t
    → t.alloc_pool ≡ pool
    → Taken t (take_from pool t)
unfolding take_from
take_from-Taken [] t v e = take_fresh-Taken t v
take_from-Taken (a ∷ rest) t v e = pooled a rest e

pub take_object-Taken : (t : Tracker) → IsTracking t → Taken t (take_object t)
unfolding take_object
take_object-Taken t v = take_from-Taken t.alloc_pool t v refl

-- The object is missing from the list and from the pool, and every other stands there once.
Taken-once :
    {t : Tracker} {a : Allocation} {u : Tracker}
    → IsTracking t
    → Taken t (a, u)
    → (n : ℕ)
    → total (is_slot n) u.allocs + total (is_slot n) u.alloc_pool + is_slot n a
      ≡ issued_once n (issued u)
unfolding total
Taken-once {t} v (pooled a rest e) n = omega (arith, v.once n, ap (total (is_slot n)) e)
Taken-once {t} v (next some_batch room) n = ground (arith, v.once n)
Taken-once {t} v (mapped e) n = ground (arith, v.once n)

-- what the part of track before the entry is pushed leaves
pub record Facts (t : Tracker) (a : Allocation) (u : Tracker) : Type 0 where
  pub allocs : u.allocs ≡ t.allocs
  pub count : u.alloc_count ≡ t.alloc_count
  pub locked : u.allocs_lock ≡ t.allocs_lock
  pub init_done : u.is_init_done ≡ t.is_init_done
  pub exit_done : u.is_exit_done ≡ t.is_exit_done
  pub depth : u.depth ≡ t.depth
  pub source : u.source ≡ t.source
  pub mode : u.report_mode ≡ t.report_mode
  pub buf : u.static_buf ≡ t.static_buf
  pub size : u.static_size ≡ t.static_size
  pub once :
      (n : ℕ)
      → total (is_slot n) u.allocs + total (is_slot n) u.alloc_pool + is_slot n a
        ≡ issued_once n (issued u)
  pub batch : u.used ≤ allocation_batch_size
  pub no_batch : u.batches ≡ 0 → u.used ≡ 0

pub Taken-Facts :
    {t : Tracker} {a : Allocation} {u : Tracker} → IsTracking t → Taken t (a, u) → Facts t a u
Taken-Facts {t} v (pooled a rest e) = record {
  allocs = refl;
  count = refl;
  locked = refl;
  init_done = refl;
  exit_done = refl;
  depth = refl;
  source = refl;
  mode = refl;
  buf = refl;
  size = refl;
  once = Taken-once v (pooled a rest e);
  batch = v.batch;
  no_batch = v.no_batch;
}
Taken-Facts {t} v (next some_batch room) = record {
  allocs = refl;
  count = refl;
  locked = refl;
  init_done = refl;
  exit_done = refl;
  depth = refl;
  source = refl;
  mode = refl;
  buf = refl;
  size = refl;
  once = Taken-once v (next some_batch room);
  batch = omega arith;
  no_batch = λ e. absurd (omega arith);
}
Taken-Facts {t} v (mapped e) = record {
  allocs = refl;
  count = refl;
  locked = refl;
  init_done = refl;
  exit_done = refl;
  depth = refl;
  source = refl;
  mode = refl;
  buf = refl;
  size = refl;
  once = Taken-once v (mapped e);
  batch = omega arith;
  no_batch = λ none. absurd (omega arith);
}
