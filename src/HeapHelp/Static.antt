-- ===== src/HeapHelp/Static.antt =====
-- The allocator on a static buffer, for the time before the C library's functions are known.
use iu_sp.Base.{
  ℕ, ◌+◌, ◌-◌, ◌*◌, ◌^◌, ◌%◌, not, ltb, leb, ◌==◌, if◌then◌else◌, Run, ok, ◌>>◌, assert,
}
use iu_sp.HeapHelp.State.{Ptr, Tracker, alloc_is_static}

-- `buf` is what mmap returns, which is not NULL; its MAP_FAILED ends the program.
unfoldable pub static_allocator_touch : Ptr → Tracker → Tracker
static_allocator_touch buf t =
    if t.static_buf == 0 then record t { static_size = 16 * 1024; static_buf = buf } else t

-- `static_used` is an `int`, and stays below `static_size`.
unfoldable pub static_malloc : Ptr → ℕ → Tracker → Run (Ptr × Tracker)
static_malloc buf size t =
    let t1 = static_allocator_touch buf t in
    assert (not t.is_init_done)
    >> assert t.init_lock
    >> assert (leb t1.static_used t1.static_size)
    >> assert (ltb size (t1.static_size - t1.static_used))
    >> ok (t1.static_buf + t1.static_used, record t1 { static_used = t1.static_used + size })

unfoldable pub static_free : Ptr → Ptr → Tracker → Run Tracker
static_free buf p t =
    let t1 = static_allocator_touch buf t in
    assert (not t.is_init_done)
    >> assert t.init_lock
    >> (if p == 0 then ok t1 else assert (alloc_is_static t1 p) >> ok t1)

-- The product wraps around, as size_t does. The memory is filled with zeros; what it holds is outside
-- of the tracker's state.
unfoldable pub static_calloc : Ptr → ℕ → ℕ → Tracker → Run (Ptr × Tracker)
static_calloc buf count size t = static_malloc buf (size * count % 2 ^ 64) t
