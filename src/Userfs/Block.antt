-- ===== src/Userfs/Block.antt =====
-- `struct block` of homework-03/userfs.c, and the copies into and out of its memory.
--
-- The doubly linked chain of blocks of a file is the list of its blocks, first block first: the
-- pointer `block` of a loop is an index into it, `none` for NULL, or the rest of the list.
-- A byte of memory that nothing has written yet is `none`.
use iu_sp.Base.{
  ℕ, ◌+◌, ◌*◌, Option, none, some, List, ◌++◌, map, leb, if◌then◌else◌, length, take, drop,
  replicate, Run, ok, fault,
}

abbrev pub block_size : ℕ
block_size = 512

abbrev pub max_file_size : ℕ
max_file_size = 1024 * 1024 * 100

abbrev pub Byte : Type 0
Byte = Option ℕ

pub record Block : Type 0 where
  pub memory : List Byte
  pub occupied : ℕ

-- `memcpy(block->memory + start, buf, length buf)`; a copy past the memory is a fault
unfoldable pub write_memory : List Byte → ℕ → List ℕ → Run (List Byte)
write_memory mem start buf =
    if leb (start + length buf) (length mem)
    then ok (take start mem ++ (map some buf ++ drop (start + length buf) mem))
    else fault

-- `memcpy(buf, block->memory + start, count)`
unfoldable pub read_memory : List Byte → ℕ → ℕ → Run (List Byte)
read_memory mem start count =
    if leb (start + count) (length mem) then ok (take count (drop start mem)) else fault

-- A new block of `ufs_write`: memory from malloc, nothing occupied.
unfoldable pub malloc_block : Block
malloc_block = record { memory = replicate block_size none; occupied = 0 }

-- A new block of `ufs_resize`: memory from calloc. Its `occupied` is set before it is read.
unfoldable pub calloc_block : Block
calloc_block = record { memory = replicate block_size (some 0); occupied = 0 }
