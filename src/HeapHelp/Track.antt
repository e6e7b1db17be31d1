-- ===== src/HeapHelp/Track.antt =====
-- The list of live allocations: alloc_trace_new and alloc_free.
use iu_sp.Base.{
  ℕ, ◌+◌, ◌-◌, ◌||◌, ◌*◌, ◌^◌, ◌%◌, not, Option, none, some, List, [], ◌∷◌, ltb, ◌==◌,
  if◌then◌else◌, take, Run, ok, fault, ◌>>=◌, ◌>>◌, assert,
}
use iu_sp.Int.{pos, suc_ℤ, pred_ℤ, ltb_ℤ}
use iu_sp.HeapHelp.State.{
  Allocation, Ptr, Tracker, allocation_batch_size, max_backtrace_len, alloc_is_static, lock_allocs,
  unlock_allocs,
}

abbrev pub object : ℕ → Allocation
object slot = record { slot = slot; trace = []; mem = 0; size = 0 }

-- A fresh object of the last batch, or of a new one. What it held before is never read.
unfoldable pub take_fresh : Tracker → Allocation × Tracker
take_fresh t =
    if (t.batches == 0) || (t.used == allocation_batch_size)
    then (
      object (t.batches * allocation_batch_size),
      record t { batches = t.batches + 1; used = 1 },
    )
    else (object ((t.batches - 1) * allocation_batch_size + t.used), record t { used = t.used + 1 })

-- the first part under the lock: an object from the pool, or a fresh one
unfoldable pub take_from : List Allocation → Tracker → Allocation × Tracker
take_from (a ∷ rest) t = (a, record t { alloc_pool = rest })
take_from [] t = take_fresh t

unfoldable pub take_object : Tracker → Allocation × Tracker
take_object t = take_from t.alloc_pool t

-- the second part under the lock
unfoldable pub push_object : Allocation → Tracker → Tracker
push_object a t = record t {
  allocs = a ∷ t.allocs;
  alloc_count = suc_ℤ t.alloc_count;
  alloc_count_total = (t.alloc_count_total + 1) % 2 ^ 64;
}

-- what follows the first part: the lock is free while the object is filled
unfoldable pub track_object : Ptr → ℕ → List ℕ → Allocation × Tracker → Run Tracker
track_object p size backtrace (a, t) =
    let b = record a { mem = p; size = size; trace = take max_backtrace_len backtrace } in
    unlock_allocs t >>= λ t1. lock_allocs t1 >>= λ t2. unlock_allocs (push_object b t2)

unfoldable pub track : Ptr → ℕ → List ℕ → Tracker → Run Tracker
track p size backtrace t = lock_allocs t >>= λ t1. track_object p size backtrace (take_object t1)

-- `backtrace` is what the C library's function of that name finds; it is asked at depth 1, the only
-- one that comes so far.
unfoldable pub alloc_trace_new : Ptr → ℕ → List ℕ → Tracker → Run Tracker
alloc_trace_new p size backtrace t =
    if alloc_is_static t p
    then ok t
    else if ltb 1 t.depth
    then ok t
    else assert (ltb 0 t.depth)
      >> assert t.is_init_done
      >> (if t.is_exit_done then ok t else track p size backtrace t)

-- an object in front of the one that is found
unfoldable pub keep :
    Allocation → Option (List Allocation × Allocation) → Option (List Allocation × Allocation)
keep a none = none
keep a (some (left, b)) = some (a ∷ left, b)

-- the search for the object of an address: the list without it, and the object
unfoldable pub unlink : List Allocation → Ptr → Option (List Allocation × Allocation)
unlink [] p = none
unlink (a ∷ rest) p =
    let later = keep a (unlink rest p) in if a.mem == p then some (rest, a) else later

-- what follows the search, under the lock
unfoldable pub pool_object : Tracker → Option (List Allocation × Allocation) → Run Tracker
pool_object t none = unlock_allocs t >>= λ t1. fault
pool_object t (some (left, a)) =
    let count = pred_ℤ t.alloc_count in
    unlock_allocs (record t { allocs = left; alloc_pool = a ∷ t.alloc_pool; alloc_count = count })
    >>= λ t1. assert (not (ltb_ℤ count (pos 0))) >> ok t1

unfoldable pub untrack : Ptr → Tracker → Run Tracker
untrack p t = lock_allocs t >>= λ t1. pool_object t1 (unlink t1.allocs p)

unfoldable pub alloc_free : Ptr → Tracker → Run Tracker
alloc_free p t =
    if alloc_is_static t p
    then ok t
    else if ltb 1 t.depth
    then ok t
    else assert t.is_init_done >> (if t.is_exit_done then ok t else untrack p t)
