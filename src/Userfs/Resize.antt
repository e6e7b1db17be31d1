-- ===== src/Userfs/Resize.antt =====
-- `ufs_resize` of homework-03/userfs.c.
use iu_sp.Base.{
  ℕ, zero, suc, ◌+◌, ◌-◌, ◌/◌, ◌%◌, ◌&&◌, Option, none, some, List, [], ◌∷◌, ◌++◌, map, ltb, ◌==◌,
  if◌then◌else◌, Run, ok, fault, ◌>>=◌, ◌>>◌, or_fault, assert,
}
use iu_sp.Int.{ℤ}
use iu_sp.Userfs.Block.{Block, block_size, max_file_size, calloc_block}
use iu_sp.Userfs.State.{
  no_file, no_mem, not_implemented, Ptr, File, FileDesc, Ufs, find_file, store_file, find_desc,
  Result, fail, return,
}

-- the blocks that `size` bytes take
abbrev pub block_count : ℕ → ℕ
block_count size = (size + block_size - 1) / block_size

-- what the last of them holds, as the source computes it
abbrev pub last_occupied : ℕ → ℕ
last_occupied size = if size % block_size == 0 then block_size else size % block_size

-- the chain without its last block
unfoldable pub drop_last : List Block → List Block
drop_last [] = []
drop_last (b ∷ []) = []
drop_last (b ∷ c ∷ bs) = b ∷ drop_last (c ∷ bs)

-- the loop that frees `n` blocks, the last first
unfoldable pub free_blocks : ℕ → List Block → Run (List Block)
free_blocks zero bs = ok bs
free_blocks (suc n) [] = fault
free_blocks (suc n) (b ∷ bs) = free_blocks n (drop_last (b ∷ bs))

-- `last_block->occupied = n`, a fault where there is no block
unfoldable pub occupy_last : ℕ → List Block → Run (List Block)
occupy_last n [] = fault
occupy_last n (b ∷ []) = ok (record b { occupied = n } ∷ [])
occupy_last n (b ∷ c ∷ bs) = do rest ← occupy_last n (c ∷ bs); ok (b ∷ rest)

-- the loop that appends `n` blocks; the block before a new one becomes full
unfoldable pub append_blocks : ℕ → List Block → Run (List Block)
append_blocks zero bs = ok bs
append_blocks (suc n) [] = append_blocks n (calloc_block ∷ [])
append_blocks (suc n) (b ∷ bs) = do
  full ← occupy_last block_size (b ∷ bs)
  append_blocks n (full ++ calloc_block ∷ [])

-- a descriptor of the file at `p` that stands behind `size` goes back to it
unfoldable pub clamp_desc : Ptr → ℕ → Option FileDesc → Option FileDesc
clamp_desc p size none = none
clamp_desc p size (some d) =
    if (d.file == p) && ltb size d.offset then some (record d { offset = size }) else some d

unfoldable pub shrink_file : File → ℕ → Run File
shrink_file f size = do
  bs ← free_blocks (block_count f.size - block_count size) f.blocks
  elim bs [
    | [] ↦
        assert (size == 0)
        >> assert (block_count size == 0)
        >> ok (record f { blocks = []; size = 0 })
    | b ∷ rest ↦ (do
      bs' ← occupy_last (last_occupied size) (b ∷ rest)
      ok (record f { blocks = bs'; size = size }))
  ]

unfoldable pub grow_file : File → ℕ → Run File
grow_file f size = do
  bs ← append_blocks (block_count size - block_count f.size) f.blocks
  bs' ← occupy_last (last_occupied size) bs
  ok (record f { blocks = bs'; size = size })

unfoldable pub resize_file : Ptr → File → ℕ → Ufs → Result
resize_file p f size fs =
    if size == f.size
    then return 0 fs
    else if ltb size f.size
    then (do
      g ← shrink_file f size
      return 0 (record fs {
        file_list = store_file fs.file_list p g;
        file_descriptors = map (clamp_desc p size) fs.file_descriptors;
      }))
    else if ltb f.size size
    then (if ltb max_file_size size then fail no_mem fs else (do
      g ← grow_file f size
      return 0 (record fs { file_list = store_file fs.file_list p g })))
    else fail not_implemented fs

unfoldable pub ufs_resize : ℤ → ℕ → Ufs → Result
ufs_resize fd size fs = do
  found ← find_desc fd fs
  elim found [
    | none ↦ fail no_file fs
    | some (_, desc) ↦ (do
      f ← or_fault (find_file fs.file_list desc.file)
      resize_file desc.file f size fs)
  ]
