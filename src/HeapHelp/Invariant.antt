-- ===== src/HeapHelp/Invariant.antt =====
-- What holds of the tracker between calls.
use iu_sp.Base.{
  ℕ, ◌+◌, ◌-◌, ◌*◌, ◌≤◌, ◌≡◌, refl, Bool, arith, length, ltb, ◌==◌, if◌then◌else◌, total,
}
use iu_sp.Int.{pos}
use iu_sp.HeapHelp.State.{Allocation, Ptr, Tracker, allocation_batch_size, in_buffer, initial}

-- whether an object is the one of a number, or of an address
abbrev pub is_slot : ℕ → Allocation → ℕ
is_slot n a = if a.slot == n then 1 else 0

abbrev pub holds : Ptr → Allocation → ℕ
holds p a = if a.mem == p then 1 else 0

-- whether the block of an object is in the static buffer
abbrev pub static_entry : (buf : Ptr) (size : ℕ) → Allocation → ℕ
static_entry buf size a = if in_buffer buf size a.mem then 1 else 0

-- the objects that the batches have handed out
abbrev pub issued : Tracker → ℕ
issued t = (t.batches - 1) * allocation_batch_size + t.used

abbrev pub issued_once : ℕ → ℕ → ℕ
issued_once n count = if ltb n count then 1 else 0

-- Every object that was handed out stands once, in the list or in the pool; no address is tracked
-- twice, and none is static; the count is that of the list.
pub record IsTracking (t : Tracker) : Type 0 where
  pub counted : t.alloc_count ≡ pos (length t.allocs)
  pub once :
      (n : ℕ)
      → total (is_slot n) t.allocs + total (is_slot n) t.alloc_pool ≡ issued_once n (issued t)
  pub tracked : (p : Ptr) → total (holds p) t.allocs ≤ 1
  pub dynamic : total (static_entry t.static_buf t.static_size) t.allocs ≡ 0
  pub batch : t.used ≤ allocation_batch_size
  pub no_batch : t.batches ≡ 0 → t.used ≡ 0

-- the lock of the tracker makes no difference
pub IsTracking-relocked :
    (b : Bool) (t : Tracker) → IsTracking t → IsTracking (record t { allocs_lock = b })
IsTracking-relocked b t v = record {
  counted = v.counted;
  once = v.once;
  tracked = v.tracked;
  dynamic = v.dynamic;
  batch = v.batch;
  no_batch = v.no_batch;
}

pub initial-IsTracking : IsTracking initial
unfolding total
initial-IsTracking = record {
  counted = refl;
  once = λ n. ground arith;
  tracked = λ p. omega arith;
  dynamic = refl;
  batch = omega arith;
  no_batch = λ e. refl;
}
