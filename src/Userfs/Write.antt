-- ===== src/Userfs/Write.antt =====
-- `ufs_write` of homework-03/userfs.c.
use iu_sp.Base.{
  ℕ, zero, suc, ◌+◌, ◌-◌, ◌/◌, ◌%◌, ◌^◌, Bool, true, not, ◌&&◌, Option, none, some, List, [], ◌∷◌,
  ◌++◌, ltb, ◌==◌, if◌then◌else◌, length, get_elem?, set, take, drop, min, max, Run, ok, fault,
  out_of_fuel, ◌>>=◌, or_fault,
}
use iu_sp.Int.{ℤ}
use iu_sp.Userfs.Block.{Block, block_size, max_file_size, write_memory, malloc_block}
use iu_sp.Userfs.State.{
  no_file, no_mem, no_permission, ufs_write_only, ufs_read_write, has_flag, File, FileDesc, Ufs,
  find_file, store_file, find_desc, Result, fail, return,
}

-- the pointer to block `i` of a chain, NULL past its end
abbrev pub block_ptr : List Block → ℕ → Option ℕ
block_ptr bs i = if ltb i (length bs) then some i else none

-- `for (i = 0; i < n; i++) block = block->next;`
unfoldable pub walk : ℕ → List Block → Option ℕ → Run (Option ℕ)
walk zero bs cur = ok cur
walk (suc n) bs none = fault
walk (suc n) bs (some i) = walk n bs (block_ptr bs (suc i))

-- `block == NULL || block->occupied == BLOCK_SIZE`
unfoldable pub needs_block : List Block → Option ℕ → Run Bool
needs_block bs none = ok true
needs_block bs (some i) = do b ← or_fault (get_elem? bs i); ok (b.occupied == block_size)

-- The chain with a new last block where one is needed, and the block to write to.
unfoldable pub writable : List Block → Option ℕ → Run (List Block × ℕ)
writable bs cur = do
  new ← needs_block bs cur
  if new
      then ok (bs ++ malloc_block ∷ [], length bs)
      else elim cur [ none ↦ fault | some i ↦ ok (bs, i) ]

-- one copy into block `i` at `start`, and the update of `occupied`
unfoldable pub write_block : List Block → ℕ → ℕ → List ℕ → Run (List Block)
write_block bs i start buf = do
  b ← or_fault (get_elem? bs i)
  mem ← write_memory b.memory start buf
  ok (set bs i (record { memory = mem; occupied = max b.occupied (start + length buf) }))

-- The loop, over the chain, the block, the offset and what is left of `buf`. A round writes a byte
-- at least, so the length of `buf` is fuel enough.
unfoldable pub write_loop : ℕ → List Block → Option ℕ → ℕ → List ℕ → Run (List Block × ℕ)
write_loop fuel bs cur offset [] = ok (bs, offset)
write_loop zero bs cur offset (x ∷ buf) = out_of_fuel
write_loop (suc fuel) bs cur offset (x ∷ buf) =
    let start = offset % block_size in
    let count = min (length (x ∷ buf)) (block_size - start) in
    writable bs cur >>= λ (bs', i). write_block bs' i start (take count (x ∷ buf)) >>= λ bs''.
    write_loop fuel bs'' (some i) (offset + count) (drop count (x ∷ buf))

-- the call on an open descriptor of the file `f`
unfoldable pub write_file : ℕ → FileDesc → File → List ℕ → Ufs → Result
write_file i desc f buf fs = do
  cur ← walk (desc.offset / block_size) f.blocks (block_ptr f.blocks 0)
  (bs, offset) ← write_loop (length buf) f.blocks cur desc.offset buf
  return (length buf) (record fs {
    file_list =
        store_file fs.file_list desc.file (record f { blocks = bs; size = max f.size offset });
    file_descriptors = set fs.file_descriptors i (some (record desc { offset = offset }));
  })

-- `size` is the length of `buf`. The sum of the sizes is of type size_t, of 64 bits.
unfoldable pub ufs_write : ℤ → List ℕ → Ufs → Result
ufs_write fd buf fs = do
  found ← find_desc fd fs
  elim found [
    | none ↦ fail no_file fs
    | some (i, desc) ↦
        if not (has_flag desc.open_flags ufs_write_only)
          && not (has_flag desc.open_flags ufs_read_write)
        then fail no_permission fs
        else if length buf == 0
        then return 0 fs
        else (do
          f ← or_fault (find_file fs.file_list desc.file)
          let too_big = ltb max_file_size ((f.size + length buf) % 2 ^ 64)
          if too_big then fail no_mem fs else write_file i desc f buf fs)
  ]
