-- ===== src/Userfs/Contract/Write.antt =====
-- What `ufs_write` leaves in the file, and what a read finds there afterwards.
use iu_sp.Base.{
  ℕ, ◌+◌, ◌-◌, ◌*◌, ◌/◌, ◌%◌, ◌^◌, ◌≤◌, ◌<◌, ◌≡◌, ◌≢◌, refl, sym, ap, ◌∙◌, subst, false, not, ◌&&◌,
  some, List, [], ◌∷◌, ◌++◌, map, arith, ltb, ◌==◌, length, take, drop, max, ok, ◌>>=◌, Returns,
  returns, length-append, length-take, length-map, drop-append_ge, take-append_le, drop_cong,
  take-all,
}
use mathlib.Core.List.{append_assoc}
use iu_sp.Int.{ℤ, pos}
use iu_sp.Userfs.Block.{Byte, Block, block_size, max_file_size}
use iu_sp.Userfs.State.{
  Ptr, File, FileDesc, Ufs, find_file, has_flag, ufs_write_only, ufs_read_write, ufs_read_only,
}
use iu_sp.Userfs.Write.{ufs_write}
use iu_sp.Userfs.Read.{ufs_read}
use iu_sp.Userfs.Files.{find-store}
use iu_sp.Userfs.Chain.{chunks}
use iu_sp.Userfs.Content.{bytes, IsLaid, length-bytes, window}
use iu_sp.Userfs.Appending.{overwrite}
use iu_sp.Userfs.Tail.{write_blocks-overwrite, write_blocks-astray}
use iu_sp.Userfs.Written.{write_blocks}
use iu_sp.Userfs.Written.Sound.{chunks-cover}
use iu_sp.Userfs.Safe.Desc.{Found}
use iu_sp.Userfs.Safe.Write.{file_after, state_after, write_file-ok}
use iu_sp.Userfs.Reading.{ufs_read-window}

-- the descriptor may write, or may read
abbrev pub IsWritable : FileDesc → Type 0
IsWritable d =
    (not (has_flag d.open_flags ufs_write_only) && not (has_flag d.open_flags ufs_read_write))
    ≡ false

abbrev pub IsReadable : FileDesc → Type 0
IsReadable d =
    (not (has_flag d.open_flags ufs_read_only) && not (has_flag d.open_flags ufs_read_write))
    ≡ false

-- the file at `p` is `g`, and all others are as before
pub record Replaced (fs : Ufs) (p : Ptr) (g : File) (gs : Ufs) : Type 0 where
  pub here : find_file gs.file_list p ≡ some g
  pub others : (q : Ptr) → p ≢ q → find_file gs.file_list q ≡ find_file fs.file_list q

some_inv : {g h : File} → some g ≡ some h → g ≡ h
some_inv e = cc

-- the written bytes stand at the offset
window-overwrite :
    (old : List Byte) (offset : ℕ) (buf : List ℕ)
    → offset ≤ length old
    → take (length buf) (drop offset (overwrite old offset buf)) ≡ map some buf
window-overwrite old offset buf h =
    ap (take (length buf)) (
      drop-append_ge offset (take offset old) _ (omega (arith, length-take offset old))
      ∙ drop_cong {m = offset - length (take offset old)} {n = 0}
          (map some buf ++ drop (offset + length buf) old) (omega (arith, length-take offset old)))
    ∙ take-append_le (length buf) (map some buf) (drop (offset + length buf) old)
        (omega (arith, length-map {B = Byte} some buf))
    ∙ take-all (length buf) (map some buf) (omega (arith, length-map {B = Byte} some buf))

module _ {n : ℕ} (fs : Ufs) (fd : ℤ) (i : ℕ) (desc : FileDesc) (f : File) (buf : List ℕ)
    (found : Found n fs fd i desc f) (writable : IsWritable desc) (some_bytes : 0 < length buf)
    (fits : f.size + length buf ≤ max_file_size) where
  pub ufs_write-state_after :
      ufs_write fd buf fs ≡ ok (pos (length buf), state_after fs i desc f buf)
  unfolding ufs_write
  ufs_write-state_after =
      let nonempty : (length buf == 0) ≡ false = ground arith in
      let small : ltb max_file_size ((f.size + length buf) % 2 ^ 64) ≡ false = ground arith in
      rw (found.found, writable, nonempty, found.live, small)
        (write_file-ok fs fd i desc f buf found)

  state_after-Replaced : Replaced fs desc.file (file_after f desc buf) (state_after fs i desc f buf)
  state_after-Replaced =
      let at =
        λ (q : Ptr). find-store fs.file_list desc.file q (file_after f desc buf) found.live in
      record { here = ground (arith, at desc.file); others = λ q ne. ground (arith, at q) }

  -- A write through a descriptor that may write, of a buffer that fits and is not empty, to a file
  -- whose blocks are full but for the last, and from an offset in that last block or at the end of
  -- the file: it returns the length, the file holds the buffer at the offset and the old bytes
  -- elsewhere, its blocks are again full but for the last, and the other files stay.
  pub ufs_write-overwrite :
      IsLaid f.blocks f.size
      → desc.offset ≤ f.size
      → f.size / block_size ≤ desc.offset / block_size
      → Returns
          (λ (m, gs).
            (m ≡ pos (length buf))
            × ((g : File) × Replaced fs desc.file g gs
                × (bytes g.blocks ≡ overwrite (bytes f.blocks) desc.offset buf)
                × (g.size ≡ max f.size (desc.offset + length buf))
                × IsLaid g.blocks g.size))
          (ufs_write fd buf fs)
  ufs_write-overwrite laid inside last =
      let wrote = write_blocks-overwrite f.blocks f.size desc.offset buf laid inside last in
      rw ufs_write-state_after
        (returns (refl, (file_after f desc buf, state_after-Replaced, wrote.0, refl, wrote.1)))

  -- The same write from an offset in a block before the last, which is full: the call returns the
  -- length as before and the size is the same where the buffer ends inside the file, but every byte
  -- of the file keeps its old value; the buffer goes into new blocks behind the others.
  pub ufs_write-astray :
      IsLaid f.blocks f.size
      → desc.offset / block_size < f.size / block_size
      → desc.offset + length buf ≤ f.size
      → Returns
          (λ (m, gs).
            (m ≡ pos (length buf))
            × ((g : File) × Replaced fs desc.file g gs
                × (g.size ≡ f.size)
                × (take f.size (bytes g.blocks) ≡ bytes f.blocks)
                × (length f.blocks < length g.blocks)))
          (ufs_write fd buf fs)
  ufs_write-astray laid before inside =
      let cs = chunks (length buf) (desc.offset % block_size) buf in
      let astray = write_blocks-astray f.blocks f.size desc.offset buf laid before some_bytes in
      let whole = length-bytes f.blocks f.size laid in
      rw ufs_write-state_after (
        returns (
          refl,
          (
            file_after f desc buf,
            state_after-Replaced,
            omega arith,
            ap (λ bs. take f.size (bytes bs)) astray ∙ kept f.blocks cs f.size whole,
            omega (arith, ap length astray, length-append f.blocks cs, grown),
          ),
        ))
    where
      bytes-append : (bs cs : List Block) → bytes (bs ++ cs) ≡ bytes bs ++ bytes cs
      bytes-append [] cs = refl
      bytes-append (b ∷ bs) cs =
          ap (λ t. take b.occupied b.memory ++ t) (bytes-append bs cs)
          ∙ sym (append_assoc (take b.occupied b.memory) (bytes bs) (bytes cs))

      kept :
          (bs cs : List Block) (size : ℕ)
          → length (bytes bs) ≡ size
          → take size (bytes (bs ++ cs)) ≡ bytes bs
      kept bs cs size e =
          ap (take size) (bytes-append bs cs)
          ∙ take-append_le size (bytes bs) (bytes cs) (omega arith)
          ∙ take-all size (bytes bs) (omega arith)

      grown : 0 < length (chunks (length buf) (desc.offset % block_size) buf)
      grown = omega (
        arith,
        chunks-cover (length buf) (desc.offset % block_size) buf (omega arith) (omega arith)
            some_bytes,
      )

  -- What was written is read back: after the first of these writes, a descriptor of the file at the
  -- place where the write began reads exactly the buffer.
  pub write-read :
      {k : ℕ} (fd' : ℤ) (j : ℕ) (d : FileDesc) {g : File}
      → IsLaid f.blocks f.size
      → desc.offset ≤ f.size
      → f.size / block_size ≤ desc.offset / block_size
      → Found k (state_after fs i desc f buf) fd' j d g
      → d.file ≡ desc.file
      → d.offset ≡ desc.offset
      → IsReadable d
      → block_size * k ≤ 2 ^ 31
      → Returns
          (λ r. (r.0 ≡ pos (length buf)) × (r.1 ≡ map some buf))
          (ufs_write fd buf fs >>= λ r. ufs_read fd' (length buf) r.1)
  write-read fd' j d {g} laid inside last again same_file same_place readable small =
      rw
        (
          ufs_write-state_after,
          ufs_read-window (state_after fs i desc f buf) fd' j d g (length buf) again
              (subst (λ (h : File). IsLaid h.blocks h.size) same wrote.1)
              (subst (λ (h : File). d.offset ≤ h.size) same (omega arith)) small readable,
        )
        (returns (ap (λ t. pos (length t)) read ∙ ap pos (length-map {B = Byte} some buf), read))
    where
      wrote :
          (bytes (write_blocks f.blocks desc.offset buf)
            ≡ overwrite (bytes f.blocks) desc.offset buf)
          × IsLaid (write_blocks f.blocks desc.offset buf) (max f.size (desc.offset + length buf))
      wrote = write_blocks-overwrite f.blocks f.size desc.offset buf laid inside last

      same : file_after f desc buf ≡ g
      same = some_inv (
          sym state_after-Replaced.here
          ∙ ap (find_file (state_after fs i desc f buf).file_list) (sym same_file)
          ∙ again.live)

      read : window g.blocks d.offset (length buf) ≡ map some buf
      read =
          ap (λ (h : File). window h.blocks d.offset (length buf)) (sym same)
          ∙ ap (λ t. take (length buf) (drop t (bytes (write_blocks f.blocks desc.offset buf))))
              same_place
          ∙ ap (λ t. take (length buf) (drop desc.offset t)) wrote.0
          ∙ window-overwrite (bytes f.blocks) desc.offset buf
              (omega (arith, length-bytes f.blocks f.size laid))
