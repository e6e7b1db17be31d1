-- ===== src/Userfs/Contract/Errors.antt =====
-- Descriptors that are not open, descriptors that may not read or write, and files that are full.
use iu_sp.Base.{
  ℕ, ◌+◌, ◌≤◌, ◌≡◌, refl, true, false, none, some, List, ok, length, arith, get_elem?, suc, ◌<◌,
  ◌^◌, ◌%◌, ltb, ◌==◌, ap, ◌∙◌, subst, leb, lt-get_elem?, get_elem?-set_self, length-set, Returns,
  returns, Returns-map, ◌⊎◌, inl, inr, Bool-cases, ltb→lt, ltb→le,
}
use iu_sp.Int.{ℤ, pos, negsuc}
use iu_sp.Userfs.State.{
  no_file, no_mem, no_permission, FileDesc, File, Ufs, find_desc, desc_at, has_flag, ufs_read_only,
  ufs_write_only, ufs_read_write, ufs_create, fail, Ptr, Name,
}
use iu_sp.Userfs.Write.{ufs_write}
use iu_sp.Userfs.Read.{ufs_read, failed}
use iu_sp.Userfs.Close.{ufs_close}
use iu_sp.Userfs.Resize.{ufs_resize}
use iu_sp.Userfs.Block.{max_file_size}
use iu_sp.Userfs.Open.{effective_flags, new_file, ufs_open}
use iu_sp.Userfs.Table.{Table}
use iu_sp.Userfs.Invariant.{IsValid}
use iu_sp.Userfs.Safe.Desc.{Found}
use iu_sp.Userfs.Safe.Open.{
  IsFresh, Opened, OpenResult, missing, existing, created, ufs_open-Returns,
}
use iu_sp.Userfs.Contract.Write.{IsWritable, ufs_write-state_after}

-- `fd` is no descriptor: not positive, above the capacity, or closed
pub data IsClosed (fs : Ufs) : ℤ → Type 0 where
  zero : IsClosed fs (pos 0)
  negative : (m : ℕ) → IsClosed fs (negsuc m)
  above : (i : ℕ) → fs.capacity ≤ i → IsClosed fs (pos (suc i))
  free : (i : ℕ) → get_elem? fs.file_descriptors i ≡ some none → IsClosed fs (pos (suc i))

find_desc-closed : (fs : Ufs) (fd : ℤ) → IsClosed fs fd → find_desc fd fs ≡ ok none
unfolding find_desc desc_at
find_desc-closed fs fd zero = refl
find_desc-closed fs fd (negative m) = refl
find_desc-closed fs fd (above i h) = ground arith
find_desc-closed fs fd (free i e) = ground arith

-- On an invalid descriptor each call that takes one returns -1, sets NO_FILE and changes nothing
-- else, and a read gives no bytes.
pub closed-no_file :
    (fs : Ufs) (fd : ℤ) (buf : List ℕ) (size : ℕ)
    → IsClosed fs fd
    → (ufs_write fd buf fs ≡ fail no_file fs)
      × (ufs_read fd size fs ≡ failed (fail no_file fs))
      × (ufs_close fd fs ≡ fail no_file fs)
      × (ufs_resize fd size fs ≡ fail no_file fs)
unfolding ufs_write ufs_read ufs_close ufs_resize
closed-no_file fs fd buf size c = let e = find_desc-closed fs fd c in (rw e, rw e, rw e, rw e)

-- the descriptor of an open that succeeds is found
Opened-find_desc :
    {n : ℕ} {ds : Table} {files : List (Ptr × File)} {p : Ptr} {f : File} {flags : ℕ} (fd : ℤ)
    (gs : Ufs) (o : Opened n ds files p f flags (fd, gs))
    → find_desc fd gs ≡ ok (some (o.place, record { file = p; open_flags = flags; offset = 0 }))
unfolding find_desc desc_at
Opened-find_desc {p} {flags} fd gs o =
    let d : FileDesc = record { file = p; open_flags = flags; offset = 0 } in
    let lt = lt-get_elem? o.table o.place o.free in
    let slot : get_elem? gs.file_descriptors o.place ≡ some (some d) =
      ap (λ ds. get_elem? ds o.place) o.filled ∙ get_elem?-set_self o.table o.place (some d) lt in
    let within : leb gs.capacity o.place ≡ false =
      ground
        (arith, o.valid.capacity, ap length o.filled, length-set o.table o.place (some d), lt) in
    let number : fd ≡ pos (suc o.place) = o.number ∙ ap pos (omega arith) in
    rw (number, within, slot) refl

module _ {n : ℕ} (malloc : List (Ptr × File) → Ptr) (fs : Ufs) (name : Name)
    (fresh : IsFresh malloc) (v : IsValid n fs) where
  -- what holds through every descriptor with these flags, holds through the one that an open returns
  ufs_open-Opened :
      (Good : ℤ × Ufs → Type 0) (flags : ℕ)
      → has_flag (effective_flags flags) ufs_create ≡ true
      → ((ds : Table) (files : List (Ptr × File)) (p : Ptr) (f : File) (r : ℤ × Ufs)
          → Opened n ds files p f (effective_flags flags) r
          → Good r)
      → Returns Good (ufs_open malloc name flags fs)
  ufs_open-Opened Good flags create good =
      Returns-map (ufs_open-Returns malloc fs name flags fresh v) λ r h. of_result r h.1
    where
      of_result : (r : ℤ × Ufs) → OpenResult n name flags fs r → Good r
      of_result r (missing none_named no_create e) = absurd (ground (arith, create, no_create))
      of_result r (existing p f e live o) = good _ _ p f r o
      of_result r (created p none_named asked new o) = good _ _ p (new_file name) r o

  -- Where malloc gives fresh addresses and the state is valid, an open with UFS_CREATE returns; after an
  -- open with UFS_READ_ONLY and neither UFS_WRITE_ONLY nor UFS_READ_WRITE a write through its descriptor
  -- fails, and after one with UFS_WRITE_ONLY and neither UFS_READ_ONLY nor UFS_READ_WRITE a read fails:
  -- each returns -1, sets NO_PERMISSION and changes nothing else.
  pub no_permission_lem :
      (reading writing : ℕ) (buf : List ℕ) (size : ℕ)
      → has_flag reading ufs_create ≡ true
      → has_flag reading ufs_read_only ≡ true
      → has_flag reading ufs_write_only ≡ false
      → has_flag reading ufs_read_write ≡ false
      → has_flag writing ufs_create ≡ true
      → has_flag writing ufs_read_only ≡ false
      → has_flag writing ufs_write_only ≡ true
      → has_flag writing ufs_read_write ≡ false
      → Returns
          (λ (fd, gs). ufs_write fd buf gs ≡ fail no_permission gs)
          (ufs_open malloc name reading fs)
        × Returns
            (λ (fd, gs). ufs_read fd size gs ≡ failed (fail no_permission gs))
            (ufs_open malloc name writing fs)
  unfolding ufs_write ufs_read
  no_permission_lem reading writing buf size create r_read r_write r_both create' w_read w_write
        w_both =
      let kept : effective_flags reading ≡ reading = rw r_read refl in
      let kept' : effective_flags writing ≡ writing = rw (w_read, w_write) refl in
      (
        ufs_open-Opened (λ (fd, gs). ufs_write fd buf gs ≡ fail no_permission gs) reading
            (rw kept create)
            (λ ds files p f (fd, gs) o.
              let found =
                Opened-find_desc fd gs (subst (λ k. Opened n ds files p f k (fd, gs)) kept o) in
              rw (found, r_write, r_both) refl),
        ufs_open-Opened (λ (fd, gs). ufs_read fd size gs ≡ failed (fail no_permission gs)) writing
            (rw kept' create')
            (λ ds files p f (fd, gs) o.
              let found =
                Opened-find_desc fd gs (subst (λ k. Opened n ds files p f k (fd, gs)) kept' o) in
              rw (found, w_read, w_both) refl),
      )

-- A write of a buffer that is not empty, through an open descriptor that may write, where size_t holds the
-- sum of the file's size and the buffer's: if the sum is above MAX_FILE_SIZE it returns -1, sets NO_MEM and
-- changes nothing else; otherwise, MAX_FILE_SIZE itself included, it returns the length of the buffer.
pub no_mem_lem :
    {n i : ℕ} {desc : FileDesc} {f : File} (fs : Ufs) (fd : ℤ) (buf : List ℕ)
    → Found n fs fd i desc f
    → IsWritable desc
    → 0 < length buf
    → f.size + length buf < 2 ^ 64
    → ((max_file_size < f.size + length buf) × (ufs_write fd buf fs ≡ fail no_mem fs))
      ⊎ ((f.size + length buf ≤ max_file_size)
          × Returns (λ (m, gs). m ≡ pos (length buf)) (ufs_write fd buf fs))
unfolding ufs_write
no_mem_lem {i} {desc} {f} fs fd buf found writable some_bytes short =
    elim (Bool-cases (ltb max_file_size (f.size + length buf))) [
      | inl big ↦
          let nonempty : (length buf == 0) ≡ false = ground arith in
          let over : ltb max_file_size ((f.size + length buf) % 2 ^ 64) ≡ true = ground arith in
          inl (ltb→lt _ _ big, rw (found.found, writable, nonempty, found.live, over) refl)
      | inr fits ↦
          let le = ltb→le _ _ fits in
          inr (
            le,
            rw (ufs_write-state_after fs fd i desc f buf found writable some_bytes le)
                (returns refl),
          )
    ]
