-- ===== src/HeapHelp/Calls.antt =====
-- The functions that take the place of the C library's, and heaph_get_alloc_count.
use iu_sp.Base.{ℕ, ◌+◌, ◌-◌, ◌%◌, ◌^◌, not, ◌==◌, if◌then◌else◌, Run, ok, ◌>>=◌, ◌>>◌, assert}
use iu_sp.Int.{pos_part, neg_part}
use iu_sp.HeapHelp.State.{Ptr, Tracker, alloc_is_static, lock_allocs, unlock_allocs}
use iu_sp.HeapHelp.Bodies.{
  Answer, malloc_body, calloc_body, strdup_body, realloc_body, free_body, getline_body,
  getaddrinfo_body, freeaddrinfo_body,
}
use iu_sp.HeapHelp.Init.{Setup, heaph_touch}

module _ (setup : Setup) (ans : Answer) where
  unfoldable pub malloc : ℕ → Tracker → Run (Ptr × Tracker)
  malloc size t = heaph_touch setup t >>= malloc_body ans size

  unfoldable pub calloc : (num size : ℕ) → Tracker → Run (Ptr × Tracker)
  calloc num size t = heaph_touch setup t >>= calloc_body ans num size

  unfoldable pub realloc : Ptr → ℕ → Tracker → Run (Ptr × Tracker)
  realloc p size t = heaph_touch setup t >>= realloc_body ans p size

  -- `p` is the text's address, and `length` its length
  unfoldable pub strdup : Ptr → ℕ → Tracker → Run (Ptr × Tracker)
  strdup p length t = heaph_touch setup t >>= λ u.
      assert (not u.is_exit_done) >> assert (not (alloc_is_static u p)) >> strdup_body ans length u

  unfoldable pub free : Ptr → Tracker → Run Tracker
  free p t =
      if p == 0
      then ok t
      else if alloc_is_static t p
      then ok t
      else heaph_touch setup t >>= free_body ans p

  unfoldable pub getline : Ptr → ℕ → Tracker → Run (Ptr × Tracker)
  getline p length t = heaph_touch setup t >>= getline_body ans p length

  unfoldable pub getaddrinfo : (rc entry_size : ℕ) → Tracker → Run (Ptr × Tracker)
  getaddrinfo rc entry_size t = heaph_touch setup t >>= getaddrinfo_body ans rc entry_size

  unfoldable pub freeaddrinfo : Ptr → Tracker → Run Tracker
  freeaddrinfo p t =
      if p == 0
      then ok t
      else assert (not (alloc_is_static t p)) >> (heaph_touch setup t >>= freeaddrinfo_body ans p)

-- The count is cast to an unsigned number.
unfoldable pub heaph_get_alloc_count : Tracker → Run (ℕ × Tracker)
heaph_get_alloc_count t = lock_allocs t >>= λ t1. unlock_allocs t1 >>= λ t2.
    ok ((pos_part t.alloc_count + 2 ^ 64 - neg_part t.alloc_count) % 2 ^ 64, t2)
