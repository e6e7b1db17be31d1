-- ===== src/HeapHelp/State.antt =====
-- The static variables of utils/heap_help/heap_help.c, its locks and its assertions.
use iu_sp.Base.{
  ℕ, ◌+◌, ◌-◌, Bool, true, false, not, ◌&&◌, List, [], leb, ltb, ◌==◌, ◌≡◌, ap, if◌then◌else◌, Run,
  ok, out_of_fuel, ◌>>=◌, ◌>>◌, assert,
}
use iu_sp.Int.{ℤ, pos}

abbrev pub max_backtrace_len : ℕ
max_backtrace_len = 64

abbrev pub allocation_batch_size : ℕ
allocation_batch_size = 1024

-- An address; NULL is 0.
abbrev pub Ptr : Type 0
Ptr = ℕ

pub data ReportMode : Type 0 where
  verbose leaks quiet : ReportMode

-- struct allocation. `slot` is its own address, as the number of the object in the order in which the
-- batches hand them out; `next` is the order of the list that it stands in.
pub record Allocation : Type 0 where
  pub slot : ℕ
  pub trace : List ℕ
  pub mem : Ptr
  pub size : ℕ

-- What `default_malloc` and the other pointers hold: NULL, the static allocator's functions, or those
-- of the C library.
pub data Source : Type 0 where
  unset static system : Source

-- `alloc_batch` is the number of batches mapped so far, with `used` of the last of them.
pub record Tracker : Type 0 where
  pub init_lock : Bool
  pub is_init_done : Bool
  pub is_exit_done : Bool
  pub init_lock_count : ℕ
  pub depth : ℕ
  pub report_mode : ReportMode
  pub static_size : ℕ
  pub static_used : ℕ
  pub static_buf : Ptr
  pub allocs_lock : Bool
  pub alloc_count : ℤ
  pub alloc_count_total : ℕ
  pub allocs : List Allocation
  pub alloc_pool : List Allocation
  pub batches : ℕ
  pub used : ℕ
  pub source : Source

-- the initialisers
abbrev pub initial : Tracker
initial = record {
  init_lock = false;
  is_init_done = false;
  is_exit_done = false;
  init_lock_count = 0;
  depth = 0;
  report_mode = ReportMode.leaks;
  static_size = 0;
  static_used = 0;
  static_buf = 0;
  allocs_lock = false;
  alloc_count = pos 0;
  alloc_count_total = 0;
  allocs = [];
  alloc_pool = [];
  batches = 0;
  used = 0;
  source = Source.unset;
}

-- A lock that the thread itself holds is spun on for ever.
unfoldable pub spinlock_acq : Bool → Run Bool
spinlock_acq true = out_of_fuel
spinlock_acq false = ok true

unfoldable pub spinlock_rel : Bool → Run Bool
spinlock_rel lock = assert lock >> ok false

-- `spinlock_acq(&allocs_lock)` and `spinlock_rel(&allocs_lock)`
unfoldable pub lock_allocs : Tracker → Run Tracker
unfolding spinlock_acq
lock_allocs t = spinlock_acq t.allocs_lock >>= λ lock. ok (record t { allocs_lock = lock })

unfoldable pub unlock_allocs : Tracker → Run Tracker
unfolding spinlock_rel
unlock_allocs t = spinlock_rel t.allocs_lock >>= λ lock. ok (record t { allocs_lock = lock })

pub lock_allocs-ok :
    (t : Tracker) → t.allocs_lock ≡ false → lock_allocs t ≡ ok (record t { allocs_lock = true })
unfolding lock_allocs
lock_allocs-ok t e = ap (λ b. spinlock_acq b >>= λ lock. ok (record t { allocs_lock = lock })) e

pub unlock_allocs-ok :
    (t : Tracker) → t.allocs_lock ≡ true → unlock_allocs t ≡ ok (record t { allocs_lock = false })
unfolding unlock_allocs
unlock_allocs-ok t e = ap (λ b. spinlock_rel b >>= λ lock. ok (record t { allocs_lock = lock })) e

unfoldable pub heaph_lock : Tracker → Run Tracker
unfolding spinlock_acq
heaph_lock t =
    let locked = spinlock_acq t.init_lock >>= λ lock.
    ok (record t { init_lock = lock; init_lock_count = t.init_lock_count + 1 }) in
    if t.init_lock_count == 0
    then locked
    else ok (record t { init_lock_count = t.init_lock_count + 1 })

unfoldable pub heaph_unlock : Tracker → Run Tracker
unfolding spinlock_rel
heaph_unlock t =
    let left = t.init_lock_count - 1 in
    let unlocked = spinlock_rel t.init_lock >>= λ lock.
    ok (record t { init_lock = lock; init_lock_count = left }) in
    assert (ltb 0 t.init_lock_count)
    >> (if left == 0 then unlocked else ok (record t { init_lock_count = left }))

-- The end of the buffer counts as a part of it.
abbrev pub in_buffer : (buf : Ptr) (size : ℕ) → Ptr → Bool
in_buffer buf size p = not (p == 0) && leb buf p && leb p (buf + size)

unfoldable pub alloc_is_static : Tracker → Ptr → Bool
alloc_is_static t p = in_buffer t.static_buf t.static_size p
