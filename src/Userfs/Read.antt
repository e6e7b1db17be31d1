-- ===== src/Userfs/Read.antt =====
-- `ufs_read` of homework-03/userfs.c.
use iu_sp.Base.{
  ℕ, zero, suc, ◌+◌, ◌-◌, ◌/◌, ◌%◌, not, ◌&&◌, Option, none, some, List, [], ◌∷◌, ◌++◌, ltb, leb,
  ◌==◌, ◌^◌, fault, if◌then◌else◌, length, set, min, Run, ok, ◌>>=◌, or_fault,
}
use iu_sp.Int.{ℤ, pos}
use iu_sp.Userfs.Block.{Byte, Block, block_size, read_memory}
use iu_sp.Userfs.State.{
  no_file, no_permission, ufs_read_only, ufs_read_write, has_flag, File, FileDesc, Ufs, find_file,
  find_desc, fail, Result,
}

-- The walk to the block at the offset; `none` where it comes to NULL before its last round.
unfoldable pub skip_blocks : ℕ → List Block → Option (List Block)
skip_blocks zero bs = some bs
skip_blocks (suc n) [] = none
skip_blocks (suc n) (b ∷ bs) = skip_blocks n bs

-- `(int)offset % BLOCK_SIZE`. The cast makes an offset with bit 31 set negative, and a negative
-- remainder is an index from before the memory of the block, a fault.
unfoldable pub block_offset : ℕ → Run ℕ
block_offset offset =
    if leb (2 ^ 31) (offset % 2 ^ 32) && not (offset % block_size == 0)
    then fault
    else ok (offset % block_size)

-- The loop, over the rest of the chain, the offset and what stands in `buf` already; `read_count` is
-- the length of that.
unfoldable pub read_loop : List Block → ℕ → ℕ → List Byte → Run (List Byte × ℕ)
read_loop [] size offset out = ok (out, offset)
read_loop (b ∷ bs) size offset out =
    let rest = block_offset offset >>= λ start.
    let count = min (b.occupied - start) (size - length out) in
    let more = read_memory b.memory start count >>= λ part.
    read_loop bs size (offset + count) (out ++ part) in
    if leb b.occupied start then ok (out, offset) else more in
    if ltb (length out) size then rest else ok (out, offset)

-- what `ufs_read` puts into `buf`, and the new offset
unfoldable pub read_blocks : FileDesc → File → ℕ → Run (List Byte × ℕ)
read_blocks desc f size = elim (skip_blocks (desc.offset / block_size) f.blocks) [
  | none ↦ ok ([], desc.offset)
  | some bs ↦
      if leb f.size desc.offset then ok ([], desc.offset) else read_loop bs size desc.offset []
]

-- A call also returns what it wrote to `buf`, nothing on an error. As `buf` is an object of C, `size`
-- is below `2 ^ 63`, and its cast to ssize_t keeps it.
abbrev pub failed : Result → Run (ℤ × List Byte × Ufs)
failed r = r >>= λ (n, fs). ok (n, [], fs)

unfoldable pub ufs_read : ℤ → ℕ → Ufs → Run (ℤ × List Byte × Ufs)
ufs_read fd size fs = do
  found ← find_desc fd fs
  elim found [
    | none ↦ failed (fail no_file fs)
    | some (i, desc) ↦
        if not (has_flag desc.open_flags ufs_read_only)
          && not (has_flag desc.open_flags ufs_read_write)
        then failed (fail no_permission fs)
        else do
          f ← or_fault (find_file fs.file_list desc.file)
          (out, offset) ← read_blocks desc f size
          ok (
            pos (length out),
            out,
            record fs {
              file_descriptors = set fs.file_descriptors i (some (record desc { offset = offset }));
            },
          )
  ]
