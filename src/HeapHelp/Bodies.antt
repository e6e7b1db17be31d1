-- ===== src/HeapHelp/Bodies.antt =====
-- The replaced functions of the C library, behind their calls of heaph_touch.
use iu_sp.Base.{
  ℕ, ◌+◌, ◌-◌, ◌*◌, ◌^◌, ◌%◌, not, ◌&&◌, List, ◌==◌, if◌then◌else◌, Run, ok, fault, ◌>>=◌, ◌>>◌,
  assert,
}
use iu_sp.HeapHelp.State.{Ptr, Source, Tracker, alloc_is_static}
use iu_sp.HeapHelp.Track.{alloc_trace_new, alloc_free}
use iu_sp.HeapHelp.Static.{static_malloc, static_free, static_calloc}

-- What the system gives to one call: the address that the C library's function of the same name
-- returns, a buffer for the static allocator, and a stack trace.
pub record Answer : Type 0 where
  pub result : Ptr
  pub buf : Ptr
  pub backtrace : List ℕ

-- `++depth` and `--depth`
abbrev pub enter : Tracker → Tracker
enter t = record t { depth = t.depth + 1 }

abbrev pub leave : Tracker → Tracker
leave t = record t { depth = t.depth - 1 }

-- `if (res != NULL) alloc_trace_new(res, size);` and the end of the function
unfoldable pub trace_result : ℕ → Answer → Ptr × Tracker → Run (Ptr × Tracker)
trace_result size ans (res, t) =
    if res == 0
    then ok (res, leave t)
    else alloc_trace_new res size ans.backtrace t >>= λ u. ok (res, leave u)

-- A call through a pointer that is still NULL is a fault.
unfoldable pub default_malloc : Source → Answer → ℕ → Tracker → Run (Ptr × Tracker)
default_malloc Source.unset ans size t = fault
default_malloc Source.static ans size t = static_malloc ans.buf size t
default_malloc Source.system ans size t = ok (ans.result, t)

unfoldable pub default_calloc : Source → Answer → ℕ → ℕ → Tracker → Run (Ptr × Tracker)
default_calloc Source.unset ans num size t = fault
default_calloc Source.static ans num size t = static_calloc ans.buf num size t
default_calloc Source.system ans num size t = ok (ans.result, t)

unfoldable pub default_free : Source → Ptr → Ptr → Tracker → Run Tracker
default_free Source.unset buf p t = fault
default_free Source.static buf p t = static_free buf p t
default_free Source.system buf p t = ok t

-- The other pointers are set from NULL to the C library's functions.
unfoldable pub default_other : Source → Answer → Tracker → Run (Ptr × Tracker)
default_other Source.unset ans t = fault
default_other Source.static ans t = fault
default_other Source.system ans t = ok (ans.result, t)

unfoldable pub malloc_body : Answer → ℕ → Tracker → Run (Ptr × Tracker)
malloc_body ans size t = default_malloc t.source ans size (enter t) >>= trace_result size ans

unfoldable pub calloc_body : Answer → ℕ → ℕ → Tracker → Run (Ptr × Tracker)
calloc_body ans num size t =
    default_calloc t.source ans num size (enter t) >>= trace_result (num * size % 2 ^ 64) ans

-- `length` is that of the text, the end marker excluded
unfoldable pub strdup_body : Answer → ℕ → Tracker → Run (Ptr × Tracker)
strdup_body ans length t = default_other t.source ans (enter t) >>= trace_result (length + 1) ans

-- the branches of realloc on its result
unfoldable pub trace_realloc : Answer → Ptr → ℕ → Ptr × Tracker → Run (Ptr × Tracker)
trace_realloc ans p size (res, t) =
    if (p == 0) && not (res == 0)
    then (alloc_trace_new res size ans.backtrace t >>= λ u. ok (res, leave u))
    else if not (p == 0) && (res == 0)
    then (alloc_free p t >>= λ u. ok (res, leave u))
    else if not (p == 0) && not (res == p)
    then (alloc_free p t >>= λ u.
        alloc_trace_new res size ans.backtrace u >>= λ v. ok (res, leave v))
    else ok (res, leave t)

unfoldable pub realloc_body : Answer → Ptr → ℕ → Tracker → Run (Ptr × Tracker)
realloc_body ans p size t =
    let q = if alloc_is_static t p then 0 else p in
    default_other t.source ans (enter t) >>= trace_realloc ans q size

unfoldable pub free_body : Answer → Ptr → Tracker → Run Tracker
free_body ans p t =
    alloc_free p (enter t) >>= λ u. default_free u.source ans.buf p u >>= λ v. ok (leave v)

-- the branches of getline: `p` is the line before, `length` that of the line after
unfoldable pub trace_line : Answer → Ptr → ℕ → Ptr × Tracker → Run (Ptr × Tracker)
trace_line ans p length (res, t) =
    let trace = λ (u : Tracker).
      alloc_trace_new res (length + 1) ans.backtrace u >>= λ v. ok (res, leave v) in
    if (p == 0) && not (res == 0)
    then trace t
    else if not (p == 0) && (res == 0)
    then fault
    else if not (p == 0) && not (res == 0) && not (p == res)
    then (alloc_free p t >>= trace)
    else if not (p == res)
    then fault
    else ok (res, leave t)

unfoldable pub getline_body : Answer → Ptr → ℕ → Tracker → Run (Ptr × Tracker)
getline_body ans p length t =
    assert (not (alloc_is_static (enter t) p))
    >> (default_other t.source ans (enter t) >>= trace_line ans p length)

-- `rc` is what getaddrinfo returns, and the answer's address what it stores in `*res`.
unfoldable pub getaddrinfo_body : Answer → (rc entry_size : ℕ) → Tracker → Run (Ptr × Tracker)
getaddrinfo_body ans rc entry_size t = default_other t.source ans (enter t) >>= λ (res, u).
    if (rc == 0) && not (res == 0)
    then (alloc_trace_new res entry_size ans.backtrace u >>= λ v. ok (res, leave v))
    else ok (res, leave u)

unfoldable pub freeaddrinfo_body : Answer → Ptr → Tracker → Run Tracker
freeaddrinfo_body ans p t =
    alloc_free p (enter t) >>= λ u. default_other u.source ans u >>= λ (_, v). ok (leave v)
