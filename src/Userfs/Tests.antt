-- ===== src/Userfs/Tests.antt =====
-- Runs of the model on small inputs.
use iu_sp.Base.{
  ℕ, ◌+◌, ◌≡◌, refl, Option, none, some, List, [], ◌∷◌, Run, ok, ◌>>=◌, replicate, length,
}
use iu_sp.Int.{ℤ, pos, negsuc}
use iu_sp.Userfs.Block.{Byte, write_memory, read_memory, malloc_block, calloc_block}
use iu_sp.Userfs.State.{
  Ptr, File, initial, find_file, store_file, remove_file, find_name, desc_at, find_desc,
}
use iu_sp.Userfs.Open.{
  first_free, init_descriptors, grow_descriptors, fill_descriptor, open_descriptor, ufs_open,
}
use iu_sp.Userfs.Write.{walk, needs_block, writable, write_block, write_loop, write_file, ufs_write}
use iu_sp.Userfs.Read.{skip_blocks, block_offset, read_loop, read_blocks, ufs_read}
use iu_sp.Userfs.Close.{release_file, ufs_close, ufs_delete}
use iu_sp.Userfs.Resize.{
  drop_last, free_blocks, occupy_last, append_blocks, clamp_desc, shrink_file, grow_file,
  resize_file, ufs_resize,
}

-- an allocator that counts up: the address after the newest file's
abbrev next_ptr : List (Ptr × File) → Ptr
next_ptr [] = 1
next_ptr ((p, _) ∷ _) = p + 1

abbrev name : List ℕ
name = 0x61 ∷ []

-- what a session reads, and the error code that it leaves
abbrev Read : Type 0
Read = Run (ℤ × List Byte)

write_read : Read
unfolding write_memory read_memory malloc_block find_file store_file find_name desc_at find_desc
    first_free init_descriptors grow_descriptors fill_descriptor open_descriptor ufs_open walk
    needs_block writable write_block write_loop write_file ufs_write skip_blocks block_offset
    read_loop read_blocks ufs_read
write_read = do
  (fd, fs) ← ufs_open next_ptr name 1 initial
  (n, fs) ← ufs_write fd (1 ∷ 2 ∷ 3 ∷ []) fs
  (fd', fs) ← ufs_open next_ptr name 0 fs
  (m, out, fs) ← ufs_read fd' 10 fs
  ok (m, out)

write_read_result : write_read ≡ ok (pos 3, some 1 ∷ some 2 ∷ some 3 ∷ [])
unfolding write_read
write_read_result = refl

-- 512 bytes of 7, then one byte 9 at offset 0 through a second descriptor: the read finds 513 bytes
-- in a file of size 512, the old ones and the new one behind them.
overwrite_full : Run (ℤ × Option ℕ)
unfolding write_read
overwrite_full = do
  (fd, fs) ← ufs_open next_ptr name 1 initial
  (_, fs) ← ufs_write fd (replicate 512 7) fs
  (fd', fs) ← ufs_open next_ptr name 0 fs
  (_, fs) ← ufs_write fd' (9 ∷ []) fs
  (fd'', fs) ← ufs_open next_ptr name 0 fs
  (m, out, fs) ← ufs_read fd'' 1024 fs
  elim out [ [] ↦ ok (m, none) | b ∷ _ ↦ ok (m, b) ]

overwrite_full_result : overwrite_full ≡ ok (pos 513, some 7)
unfolding overwrite_full
overwrite_full_result = refl

-- resize down and up again, ghosts and permissions
resize_delete : Run (ℤ × List Byte × ℤ × ℤ)
unfolding write_read drop_last free_blocks occupy_last append_blocks clamp_desc shrink_file
    grow_file resize_file ufs_resize calloc_block release_file ufs_close ufs_delete remove_file
resize_delete = do
  (fd, fs) ← ufs_open next_ptr name 1 initial
  (_, fs) ← ufs_write fd (1 ∷ 2 ∷ 3 ∷ []) fs
  (_, fs) ← ufs_resize fd 1 fs
  (_, fs) ← ufs_resize fd 600 fs
  (_, fs) ← ufs_delete name fs
  (fd', fs) ← ufs_open next_ptr name 3 fs
  (w, fs) ← ufs_write fd' (5 ∷ []) fs
  (_, fs) ← ufs_write fd (4 ∷ []) fs
  (_, out, fs) ← ufs_read fd 1 fs
  (_, fs) ← ufs_close fd fs
  (bad, fs) ← ufs_close fd fs
  ok (w, out, bad, pos (length fs.file_list))

resize_delete_result : resize_delete ≡ ok (negsuc 0, some 3 ∷ [], negsuc 0, pos 1)
unfolding resize_delete
resize_delete_result = refl
