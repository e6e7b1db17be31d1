-- ===== src/HeapHelp/Tracking.antt =====
-- alloc_trace_new and alloc_free on the list of allocations and on the pool.
pub mod Objects
pub mod Pushing
pub mod Unlinking
use iu_sp.Base.{ℕ, ◌≡◌, Bool}
use iu_sp.HeapHelp.State.{Ptr, ReportMode, Source, Tracker}

-- What tracking leaves alone, with the lock free again.
pub record Kept (t u : Tracker) : Type 0 where
  pub init_done : u.is_init_done ≡ t.is_init_done
  pub exit_done : u.is_exit_done ≡ t.is_exit_done
  pub depth : u.depth ≡ t.depth
  pub unlocked : u.allocs_lock ≡ Bool.false
  pub source : u.source ≡ t.source
  pub mode : u.report_mode ≡ t.report_mode
  pub buf : u.static_buf ≡ t.static_buf
  pub size : u.static_size ≡ t.static_size

-- the lock of the tracker makes no difference
pub Kept-relocked : (b : Bool) (t u : Tracker) → Kept (record t { allocs_lock = b }) u → Kept t u
Kept-relocked b t u k = record {
  init_done = k.init_done;
  exit_done = k.exit_done;
  depth = k.depth;
  unlocked = k.unlocked;
  source = k.source;
  mode = k.mode;
  buf = k.buf;
  size = k.size;
}
