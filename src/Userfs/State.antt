-- ===== src/Userfs/State.antt =====
-- The state of homework-03/userfs.c: files, descriptors, the error code; and the look-ups.
--
-- `file_list` is the list of the live files with their addresses, first file first. A file is freed
-- exactly when it is unlinked, so the list is also the memory that holds the files: reading an
-- address that is not on it is a use after free, a fault.
use iu_sp.Base.{
  ℕ, zero, suc, ◌+◌, ◌/◌, ◌%◌, Bool, true, false, not, ◌&&◌, Option, none, some, List, [], ◌∷◌, leb,
  ◌==◌, if◌then◌else◌, get_elem?, Run, ok, ◌>>=◌, or_fault,
}
use iu_sp.Userfs.Block.{Block}
use iu_sp.Int.{ℤ, pos, negsuc}

-- `enum ufs_error_code`
pub data ErrorCode : Type 0 where
  no_err no_file no_mem not_implemented no_permission : ErrorCode

-- `enum open_flags`
abbrev pub ufs_create : ℕ
ufs_create = 1

abbrev pub ufs_read_only : ℕ
ufs_read_only = 2

abbrev pub ufs_write_only : ℕ
ufs_write_only = 4

abbrev pub ufs_read_write : ℕ
ufs_read_write = 8

-- `flags & bit`, for a power of two
abbrev pub has_flag : ℕ → ℕ → Bool
has_flag flags bit = flags / bit % 2 == 1

-- `flags | bit`, for a power of two
abbrev pub add_flag : ℕ → ℕ → ℕ
add_flag flags bit = if has_flag flags bit then flags else flags + bit

-- an address that malloc returned
abbrev pub Ptr : Type 0
Ptr = ℕ

-- the bytes of a C string
abbrev pub Name : Type 0
Name = List ℕ

-- `strcmp(a, b) == 0`
abbrev pub name_eq : Name → Name → Bool
name_eq [] [] = true
name_eq [] (_ ∷ _) = false
name_eq (_ ∷ _) [] = false
name_eq (x ∷ xs) (y ∷ ys) = (x == y) && name_eq xs ys

pub record File : Type 0 where
  pub blocks : List Block
  pub refs : ℕ
  pub is_ghost : Bool
  pub size : ℕ
  pub name : Name

pub record FileDesc : Type 0 where
  pub file : Ptr
  pub open_flags : ℕ
  pub offset : ℕ

pub record Ufs : Type 0 where
  pub error_code : ErrorCode
  pub file_list : List (Ptr × File)
  pub file_descriptors : List (Option FileDesc)
  pub used : ℕ
  pub capacity : ℕ

-- the static initialisers
abbrev pub initial : Ufs
initial = record {
  error_code = no_err;
  file_list = [];
  file_descriptors = [];
  used = 0;
  capacity = 0;
}

-- `ufs_errno`
unfoldable pub ufs_errno : Ufs → ErrorCode
ufs_errno fs = fs.error_code

-- the file at an address
unfoldable pub find_file : List (Ptr × File) → Ptr → Option File
find_file [] p = none
find_file ((q, f) ∷ fs) p = if q == p then some f else find_file fs p

-- `*p = f`
unfoldable pub store_file : List (Ptr × File) → Ptr → File → List (Ptr × File)
store_file [] p f = []
store_file ((q, g) ∷ fs) p f = if q == p then (q, f) ∷ fs else (q, g) ∷ store_file fs p f

-- `_ufs_unlink_file` and `_ufs_free_file`
unfoldable pub remove_file : List (Ptr × File) → Ptr → List (Ptr × File)
remove_file [] p = []
remove_file ((q, g) ∷ fs) p = if q == p then fs else (q, g) ∷ remove_file fs p

-- the loop over `file_list` that looks for a name; a ghost has none
unfoldable pub find_name : List (Ptr × File) → Name → Option Ptr
find_name [] name = none
find_name ((p, f) ∷ fs) name =
    if not f.is_ghost && name_eq f.name name then some p else find_name fs name

-- What a call returns, and the state that it leaves.
abbrev pub Result : Type 0
Result = Run (ℤ × Ufs)

-- `ufs_error_code = e; return -1;`
abbrev pub fail : ErrorCode → Ufs → Result
fail e fs = ok (negsuc 0, record fs { error_code = e })

-- `return n;`
abbrev pub return : ℕ → Ufs → Result
return n fs = ok (pos n, fs)

-- `fd - 1`, where that is not negative
abbrev pub desc_index : ℤ → Option ℕ
desc_index (pos (suc i)) = some i
desc_index (pos zero) = none
desc_index (negsuc _) = none

-- `file_descriptors[i]`; `none` where it is NULL or `i` is not below the capacity
unfoldable pub desc_at : Ufs → ℕ → Run (Option FileDesc)
desc_at fs i = if leb fs.capacity i then ok none else or_fault (get_elem? fs.file_descriptors i)

-- The start of `ufs_write`, `ufs_read`, `ufs_close` and `ufs_resize`: the index and the descriptor
-- of `fd`, or `none` for an invalid one, of which the callers say NO_FILE.
unfoldable pub find_desc : ℤ → Ufs → Run (Option (ℕ × FileDesc))
unfolding desc_at
find_desc fd fs = elim (desc_index fd) [
  | none ↦ ok none
  | some i ↦ (do d ← desc_at fs i; elim d [ none ↦ ok none | some desc ↦ ok (some (i, desc)) ])
]
