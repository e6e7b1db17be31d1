-- ===== src/Userfs/Names/Directory.antt =====
-- The names of homework-03/userfs.c as a set, which forgets the files, their order and their ghosts.
use iu_sp.Base.{ℕ, Bool, true, false, not, ◌&&◌, ◌||◌, List, [], ◌∷◌, if◌then◌else◌, Run, ok, ◌>>=◌}
use iu_sp.Int.{ℤ, pos, negsuc}
use iu_sp.Userfs.State.{Ptr, Name, File, Ufs, ufs_create, has_flag, name_eq}
use iu_sp.Userfs.Open.{effective_flags, ufs_open}
use iu_sp.Userfs.Close.{ufs_delete}
use iu_sp.Userfs.Session.{
  Call, open_file, write_file, read_file, close_file, delete_file, resize_file, destroy, call,
}

-- a set of names
abbrev pub Directory : Type 0
Directory = Name → Bool

-- whether ufs_open with these flags makes a file
abbrev pub creates : ℕ → Bool
creates flags = has_flag (effective_flags flags) ufs_create

-- what a call does to the set, and whether it succeeds, for a call that takes a name
abbrev pub dir_call : Call → Directory → Directory
dir_call (open_file name flags) d m = if creates flags then name_eq name m || d m else d m
dir_call (write_file fd buf) d m = d m
dir_call (read_file fd size) d m = d m
dir_call (close_file fd) d m = d m
dir_call (delete_file name) d m = not (name_eq name m) && d m
dir_call (resize_file fd size) d m = d m
dir_call destroy d m = false

abbrev pub dir_answer : Call → Directory → Bool
dir_answer (open_file name flags) d = d name || creates flags
dir_answer (write_file fd buf) d = true
dir_answer (read_file fd size) d = true
dir_answer (close_file fd) d = true
dir_answer (delete_file name) d = d name
dir_answer (resize_file fd size) d = true
dir_answer destroy d = true

-- the answers of a sequence of calls, and the set that it leaves
abbrev pub dir_session : List Call → Directory → List Bool × Directory
dir_session [] d = ([], d)
dir_session (c ∷ cs) d =
    let later = dir_session cs (dir_call c d) in (dir_answer c d ∷ later.0, later.1)

abbrev pub is_success : ℤ → Bool
is_success (pos n) = true
is_success (negsuc n) = false

-- the same of the file system
unfoldable pub answer : (List (Ptr × File) → Ptr) → Call → Ufs → Run (Bool × Ufs)
answer malloc (open_file name flags) fs =
    ufs_open malloc name flags fs >>= λ r. ok (is_success r.0, r.1)
answer malloc (write_file fd buf) fs = call malloc (write_file fd buf) fs >>= λ gs. ok (true, gs)
answer malloc (read_file fd size) fs = call malloc (read_file fd size) fs >>= λ gs. ok (true, gs)
answer malloc (close_file fd) fs = call malloc (close_file fd) fs >>= λ gs. ok (true, gs)
answer malloc (delete_file name) fs = ufs_delete name fs >>= λ r. ok (is_success r.0, r.1)
answer malloc (resize_file fd size) fs =
    call malloc (resize_file fd size) fs >>= λ gs. ok (true, gs)
answer malloc destroy fs = call malloc destroy fs >>= λ gs. ok (true, gs)

unfoldable pub answers : (List (Ptr × File) → Ptr) → List Call → Ufs → Run (List Bool × Ufs)
answers malloc [] fs = ok ([], fs)
answers malloc (c ∷ cs) fs =
    answer malloc c fs >>= λ (a, gs). answers malloc cs gs >>= λ (rest, hs). ok (a ∷ rest, hs)
