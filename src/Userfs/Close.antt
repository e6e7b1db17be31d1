-- ===== src/Userfs/Close.antt =====
-- `ufs_close`, `ufs_delete` and `ufs_destroy` of homework-03/userfs.c.
use iu_sp.Base.{◌-◌, true, ◌&&◌, none, some, List, [], leb, if◌then◌else◌, set, ◌>>=◌, or_fault}
use iu_sp.Int.{ℤ}
use iu_sp.Userfs.State.{
  no_file, Ptr, Name, File, Ufs, find_file, store_file, remove_file, find_name, find_desc, Result,
  fail, return,
}

-- `file->refs--`, and the file goes with its last reference if it is a ghost
unfoldable pub release_file : List (Ptr × File) → Ptr → File → List (Ptr × File)
release_file files p f =
    if leb (f.refs - 1) 0 && f.is_ghost
    then remove_file files p
    else store_file files p (record f { refs = f.refs - 1 })

unfoldable pub ufs_close : ℤ → Ufs → Result
ufs_close fd fs = do
  found ← find_desc fd fs
  elim found [
    | none ↦ fail no_file fs
    | some (i, desc) ↦ (do
      f ← or_fault (find_file fs.file_list desc.file)
      return 0 (record fs {
        file_list = release_file fs.file_list desc.file f;
        file_descriptors = set fs.file_descriptors i none;
        used = fs.used - 1;
      }))
  ]

unfoldable pub ufs_delete : Name → Ufs → Result
ufs_delete name fs = elim (find_name fs.file_list name) [
  | none ↦ fail no_file fs
  | some p ↦ (do
    f ← or_fault (find_file fs.file_list p)
    return 0 (record fs {
      file_list =
          if leb f.refs 0
          then remove_file fs.file_list p
          else store_file fs.file_list p (record f { is_ghost = true });
    }))
]

-- The error code stays; the rest is as before the first call.
unfoldable pub ufs_destroy : Ufs → Ufs
ufs_destroy fs = record fs { file_list = []; file_descriptors = []; used = 0; capacity = 0 }
