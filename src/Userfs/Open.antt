-- ===== src/Userfs/Open.antt =====
-- `ufs_open` of homework-03/userfs.c.
use iu_sp.Base.{
  ℕ, suc, ◌+◌, ◌*◌, false, not, ◌&&◌, Option, none, some, List, [], ◌∷◌, ◌++◌, leb, ltb,
  if◌then◌else◌, set, replicate, ◌>>=◌, or_fault,
}
use iu_sp.Userfs.State.{
  no_file, not_implemented, ufs_create, ufs_read_only, ufs_write_only, ufs_read_write, has_flag,
  add_flag, Ptr, Name, File, FileDesc, Ufs, find_file, store_file, find_name, Result, fail, return,
}

-- a new file of `ufs_open`
abbrev pub new_file : Name → File
new_file name = record { blocks = []; refs = 0; is_ghost = false; size = 0; name = name }

-- flags without a read or write restriction get UFS_READ_WRITE
abbrev pub effective_flags : ℕ → ℕ
effective_flags flags =
    if not (has_flag flags ufs_read_only) && not (has_flag flags ufs_write_only)
    then add_flag flags ufs_read_write
    else flags

-- the first descriptor that is NULL, counting from `i`
unfoldable pub first_free : List (Option FileDesc) → ℕ → Option ℕ
first_free [] i = none
first_free (none ∷ ds) i = some i
first_free (some _ ∷ ds) i = first_free ds (suc i)

-- the array of descriptors as the first call makes it
unfoldable pub init_descriptors : Ufs → Ufs
init_descriptors fs =
    if leb fs.capacity 0
    then record fs { file_descriptors = replicate 10 none; capacity = 10; used = 0 }
    else fs

-- the array at twice its capacity
unfoldable pub grow_descriptors : Ufs → Ufs
grow_descriptors fs = record fs {
  file_descriptors = fs.file_descriptors ++ replicate fs.capacity none;
  capacity = fs.capacity * 2;
}

-- fills the descriptor at `i`, and counts the reference of the file at `p`
unfoldable pub fill_descriptor : ℕ → Ptr → ℕ → Ufs → Result
fill_descriptor i p flags fs = do
  f ← or_fault (find_file fs.file_list p)
  return (i + 1) (record fs {
    file_descriptors =
        set fs.file_descriptors i (some (record { file = p; open_flags = flags; offset = 0 }));
    used = fs.used + 1;
    file_list = store_file fs.file_list p (record f { refs = f.refs + 1 });
  })

-- the second half of `ufs_open`: a descriptor for the file at `p`
unfoldable pub open_descriptor : Ptr → ℕ → Ufs → Result
open_descriptor p flags fs0 =
    let fs = init_descriptors fs0 in
    if ltb fs.used fs.capacity
    then elim (first_free fs.file_descriptors 0) [
      | none ↦ fail not_implemented fs
      | some i ↦ fill_descriptor i p flags fs
    ]
    else fill_descriptor fs.used p flags (grow_descriptors fs)

-- `malloc` stands for the allocator: the address of a new file, given the live ones.
unfoldable pub ufs_open : (malloc : List (Ptr × File) → Ptr) → Name → ℕ → Ufs → Result
ufs_open malloc name flags0 fs =
    let flags = effective_flags flags0 in
    elim (find_name fs.file_list name) [
      | some p ↦ open_descriptor p flags fs
      | none ↦
          if has_flag flags ufs_create
          then (let p = malloc fs.file_list in
              open_descriptor p flags (record fs { file_list = (p, new_file name) ∷ fs.file_list }))
          else fail no_file fs
    ]
