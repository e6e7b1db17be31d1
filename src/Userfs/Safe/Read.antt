-- ===== src/Userfs/Safe/Read.antt =====
-- `ufs_read` keeps the invariant and has no fault.
use iu_sp.Base.{
  ℕ, zero, suc, ◌+◌, ◌-◌, ◌*◌, ◌/◌, ◌%◌, ◌≤◌, ◌<◌, ◌≡◌, refl, inl, inr, not, ◌&&◌, some, List, [],
  ◌∷◌, ◌++◌, arith, ltb, leb, ◌^◌, max, length, min, take, drop, ok, Returns, returns, Returns-if,
  Returns-bind, Returns-map, ltb→lt, All, All-drop, length-take, length-drop, length-append,
}
use iu_sp.Int.{ℤ}
use iu_sp.Userfs.Block.{Byte, Block, block_size, read_memory}
use iu_sp.Userfs.State.{
  no_file, no_permission, File, FileDesc, Ufs, has_flag, ufs_read_only, ufs_read_write,
}
use iu_sp.Userfs.Read.{skip_blocks, block_offset, read_loop, read_blocks, ufs_read}
use iu_sp.Userfs.Invariant.{reach, IsBlock, IsValid}
use iu_sp.Userfs.Linking.{Linked-move}
use iu_sp.Userfs.Safe.Desc.{Found, find_desc-cases, IsValid-error, IsValid-set}

pub read_memory-ok :
    (mem : List Byte) (start count : ℕ)
    → start + count ≤ length mem
    → read_memory mem start count ≡ ok (take count (drop start mem))
unfolding read_memory
read_memory-ok mem start count h = ground arith

pub skip_blocks-drop :
    (k : ℕ) (bs : List Block) → k ≤ length bs → skip_blocks k bs ≡ some (drop k bs)
unfolding skip_blocks
skip_blocks-drop zero bs h = refl
skip_blocks-drop (suc k) [] h = absurd (omega arith)
skip_blocks-drop (suc k) (b ∷ bs) h = skip_blocks-drop k bs (omega arith)

pub block_offset-ok :
    (offset : ℕ) → offset < 2 ^ 31 → block_offset offset ≡ ok (offset % block_size)
unfolding block_offset
block_offset-ok offset h = ground arith

-- The loop has no fault on a sound chain of less than 2 GiB, of which `k` blocks are behind it, and
-- the offset stays inside the chain. It copies as many bytes as the offset moves.
pub read_loop-Returns :
    (bs : List Block) (k size offset : ℕ) (out : List Byte)
    → All IsBlock bs
    → offset / block_size ≤ k
    → block_size * (k + length bs) ≤ 2 ^ 31
    → Returns
        (λ (out', offset').
          (offset' ≤ max offset (block_size * (k + length bs)))
          × (length out' + offset ≡ length out + offset')
          × (length out' ≤ max size (length out)))
        (read_loop bs size offset out)
unfolding read_loop
read_loop-Returns [] k size offset out sound at small = returns (omega arith)
read_loop-Returns (b ∷ bs) k size offset out sound at small =
    Returns-if (ltb (length out) size)
      (λ more. rw (block_offset-ok offset (omega arith)) (
        Returns-if (leb b.occupied (offset % block_size)) (λ _. returns (omega arith))
          λ _.
            rw (read_memory-ok b.memory start count (omega (arith, sound.0.sized, sound.0.within)))
              (Returns-map
                (read_loop-Returns bs (suc k) size (offset + count) (out ++ part) sound.1
                  (omega (arith, sound.0.within)) (omega arith))
                λ r (a, c, d). omega (
                  arith,
                  length-append out part,
                  length-take count (drop start b.memory),
                  length-drop start b.memory,
                  sound.0.sized,
                  sound.0.within,
                  ltb→lt _ _ more,
                  a,
                  c,
                  d,
                ))))
      (λ _. returns (omega arith))
  where
    start : ℕ
    start = offset % block_size

    count : ℕ
    count = min (b.occupied - start) (size - length out)

    part : List Byte
    part = take count (drop start b.memory)

module _ {n : ℕ} (fs : Ufs) (fd : ℤ) (i : ℕ) (desc : FileDesc) (f : File) (size : ℕ)
    (found : Found n fs fd i desc f) (small : block_size * n ≤ 2 ^ 31) where
  pub read_blocks-Returns :
      Returns (λ (out, offset). (offset ≤ reach f) × (length out ≤ size)) (read_blocks desc f size)
  unfolding read_blocks
  read_blocks-Returns =
      rw
        (
          skip_blocks-drop (desc.offset / block_size) f.blocks (omega (arith, found.inside)),
          read_blocks,
        )
        (Returns-if (leb f.size desc.offset) (λ _. returns (omega (arith, found.inside)))
          λ _.
            Returns-map
              (read_loop-Returns (drop (desc.offset / block_size) f.blocks)
                (desc.offset / block_size) size desc.offset []
                (All-drop IsBlock (desc.offset / block_size) f.blocks found.sound.sound)
                (omega arith) (omega (arith, left, found.sound.short)))
              λ r (a, c, d). omega (arith, left, found.inside, a, d))
    where
      left :
          desc.offset / block_size + length (drop (desc.offset / block_size) f.blocks)
          ≡ length f.blocks
      left = omega (arith, length-drop (desc.offset / block_size) f.blocks, found.inside)

  ufs_read_found :
      IsValid n fs → Returns (λ r. IsValid n r.2 × (length r.1 ≤ size)) (ufs_read fd size fs)
  unfolding ufs_read
  ufs_read_found v =
      rw (found.found, found.live)
        (Returns-if
          (not (has_flag desc.open_flags ufs_read_only)
            && not (has_flag desc.open_flags ufs_read_write))
          (λ _. returns (IsValid-error no_permission v, omega arith))
          λ _. Returns-bind read_blocks-Returns λ r (inside, fits). returns (
            IsValid-set fs fs.file_list i (record desc { offset = r.1 }) v found.slot
                (Linked-move fs.file_list fs.file_descriptors v.linked i desc f r.1 found.slot
                  found.live inside),
            fits,
          ))

-- `ufs_read` keeps the invariant, has no fault and returns no more than `size` bytes, where no chain
-- is longer than 2 GiB.
pub ufs_read-IsValid :
    {n : ℕ} (fs : Ufs) (fd : ℤ) (size : ℕ)
    → IsValid n fs
    → block_size * n ≤ 2 ^ 31
    → Returns (λ r. IsValid n r.2 × (length r.1 ≤ size)) (ufs_read fd size fs)
unfolding ufs_read
ufs_read-IsValid fs fd size v small = elim (find_desc-cases fs fd v) [
  | inl missing ↦ rw missing (returns (IsValid-error no_file v, omega arith))
  | inr (i, desc, f, found) ↦ ufs_read_found fs fd i desc f size found small v
]
