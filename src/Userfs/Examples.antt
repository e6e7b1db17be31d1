-- ===== src/Userfs/Examples.antt =====
-- The theorems at small states: one file at address 1 with one descriptor, the number 1.
mod Resizes
mod Writes
mod Directory
use iu_sp.Base.{
  total, ℕ, ◌+◌, ◌≤◌, ◌<◌, ◌≡◌, refl, false, none, some, List, [], ◌∷◌, map, arith, length,
  replicate, set, take, max, ok, ◌>>=◌, Returns, length-replicate, ◌≢◌, ◌⊎◌,
}
use iu_sp.Int.{pos}
use iu_sp.Userfs.Block.{Byte, Block, block_size, max_file_size}
use iu_sp.Userfs.State.{
  Ptr, Name, File, FileDesc, Ufs, no_err, no_file, no_permission, no_mem, initial, find_file,
  store_file, find_desc, desc_at, find_name, fail,
}
use iu_sp.Userfs.Open.{ufs_open}
use iu_sp.Userfs.Write.{ufs_write}
use iu_sp.Userfs.Read.{ufs_read, failed}
use iu_sp.Userfs.Close.{ufs_close, ufs_delete}
use iu_sp.Userfs.Resize.{ufs_resize}
use iu_sp.Userfs.Invariant.{IsBlock, IsFile, IsValid}
use iu_sp.Userfs.Content.{bytes, IsLaid, window}
use iu_sp.Userfs.Appending.{overwrite}
use iu_sp.Userfs.Reading.{ufs_read-window}
use iu_sp.Userfs.Safe.Desc.{Found}
use iu_sp.Userfs.Safe.Open.{IsFresh, OpenResult, ufs_open-Returns}
use iu_sp.Userfs.Safe.Write.{state_after, file_after, file_after-IsFile}
use iu_sp.Userfs.Written.Sound.{write_blocks-cover}
use iu_sp.Userfs.Session.{Call, session, session_safe, total_cost}
use iu_sp.Userfs.Contract.Write.{Replaced, ufs_write-overwrite, ufs_write-astray, write-read}
use iu_sp.Userfs.Contract.Errors.{IsClosed, closed-no_file, no_permission_lem, no_mem_lem}
use iu_sp.Userfs.Contract.Delete.{Deleted, ufs_delete-Deleted, ufs_close-released}

abbrev name : Name
name = 0x61 ∷ []

-- the bytes of the writes
abbrev buf : List ℕ
buf = 1 ∷ 2 ∷ []

-- an address above all others
abbrev above : List (Ptr × File) → Ptr
above [] = 1
above ((p, _) ∷ fs) = max (p + 1) (above fs)

above_all : (fs : List (Ptr × File)) (q : Ptr) → above fs ≤ q → find_file fs q ≡ none
unfolding find_file
above_all [] q h = refl
above_all ((p, f) ∷ fs) q h = ground (arith, above_all fs q)

above-IsFresh : IsFresh above
above-IsFresh fs = above_all fs (above fs) (omega arith)

abbrev calls : List Call
calls =
    Call.open_file name 1
    ∷ Call.write_file (pos 1) (1 ∷ 2 ∷ 3 ∷ [])
    ∷ Call.resize_file (pos 1) 600
    ∷ Call.delete_file name
    ∷ Call.read_file (pos 7) 10
    ∷ Call.close_file (pos 1)
    ∷ Call.destroy
    ∷ []

session_safe_example : Returns (IsValid (total_cost calls)) (session above calls initial)
session_safe_example = session_safe above above-IsFresh calls (omega arith)

-- A block with `k` bytes, and a file of that block, opened at `offset` with `flags`.
abbrev block : ℕ → Block
block k = record { memory = replicate block_size (some 7); occupied = k }

abbrev file : ℕ → File
file k = record { blocks = block k ∷ []; refs = 1; is_ghost = false; size = k; name = name }

abbrev desc : ℕ → ℕ → FileDesc
desc flags offset = record { file = 1; open_flags = flags; offset = offset }

abbrev state : ℕ → ℕ → ℕ → Ufs
state k flags offset = record {
  error_code = no_err;
  file_list = (1, file k) ∷ [];
  file_descriptors = some (desc flags offset) ∷ none ∷ [];
  used = 1;
  capacity = 2;
}

block-IsBlock : (k : ℕ) → k ≤ block_size → IsBlock (block k)
block-IsBlock k h = record {
  sized = length-replicate {0} {A = Byte} block_size (some 7);
  within = h;
}

file-IsFile : (k : ℕ) → k ≤ block_size → IsFile 1 (file k)
file-IsFile k h = record {
  sound = (block-IsBlock k h, tt);
  covered = omega arith;
  short = omega arith;
}

state-Found :
    (k flags offset : ℕ)
    → k ≤ block_size
    → offset ≤ block_size
    → Found 1 (state k flags offset) (pos 1) 0 (desc flags offset) (file k)
unfolding find_desc desc_at find_file
state-Found k flags offset h inside = record {
  found = refl;
  number = refl;
  slot = refl;
  live = refl;
  inside = omega arith;
  sound = file-IsFile k h;
}

state-IsValid :
    (k flags offset : ℕ) → k ≤ block_size → offset ≤ block_size → IsValid 1 (state k flags offset)
unfolding find_file total
state-IsValid k flags offset h inside = record {
  linked = record {
    distinct = (refl, tt);
    files =
        λ p f e. mathlib.Core.Path.subst (IsFile 1) {x = file k} (ground arith) (file-IsFile k h);
    counted = λ p f e. ground arith;
    haunted = λ p f e g. ground arith;
    opened = λ i d e. record { target = file k; live = ground arith; inside = ground arith };
    unique = λ p q f g m n. ground (arith, m.live, n.live);
  };
  used = refl;
  capacity = refl;
}

ufs_open-Returns_example :
    Returns
      (λ r. IsValid 1 r.1 × OpenResult 1 (0x62 ∷ []) 1 (state 3 8 0) r)
      (ufs_open above (0x62 ∷ []) 1 (state 3 8 0))
ufs_open-Returns_example =
    ufs_open-Returns above (state 3 8 0) (0x62 ∷ []) 1 above-IsFresh
      (state-IsValid 3 8 0 (omega arith) (omega arith))

ufs_delete-Deleted_example :
    Returns
      (λ (m, gs). (m ≡ pos 0) × Deleted (state 3 8 0) name 1 gs)
      (ufs_delete name (state 3 8 0))
unfolding find_name
ufs_delete-Deleted_example =
    ufs_delete-Deleted (state 3 8 0) name 1 (state-IsValid 3 8 0 (omega arith) (omega arith)) refl

ufs_close-released_example :
    Returns
      (λ (m, gs).
        (m ≡ pos 0)
        × (gs.file_descriptors ≡ none ∷ none ∷ [])
        × (find_file gs.file_list 1 ≡ some (record (file 3) { refs = 0 }))
        × ((q : Ptr) → 1 ≢ q → find_file gs.file_list q ≡ find_file (state 3 8 0).file_list q))
      (ufs_close (pos 1) (state 3 8 0))
ufs_close-released_example =
    ufs_close-released (state 3 8 0) (pos 1) 0 (desc 8 0) (file 3)
      (state-IsValid 3 8 0 (omega arith) (omega arith))
      (state-Found 3 8 0 (omega arith) (omega arith))

closed-no_file_example :
    (ufs_write (pos 2) buf (state 3 8 0) ≡ fail no_file (state 3 8 0))
    × (ufs_read (pos 2) 5 (state 3 8 0) ≡ failed (fail no_file (state 3 8 0)))
    × (ufs_close (pos 2) (state 3 8 0) ≡ fail no_file (state 3 8 0))
    × (ufs_resize (pos 2) 5 (state 3 8 0) ≡ fail no_file (state 3 8 0))
closed-no_file_example = closed-no_file (state 3 8 0) (pos 2) buf 5 (IsClosed.free 1 refl)

-- UFS_CREATE with UFS_READ_ONLY, and with UFS_WRITE_ONLY
no_permission_lem_example :
    Returns
      (λ (fd, gs). ufs_write fd buf gs ≡ fail no_permission gs)
      (ufs_open above (0x62 ∷ []) 3 (state 3 8 0))
    × Returns
        (λ (fd, gs). ufs_read fd 5 gs ≡ failed (fail no_permission gs))
        (ufs_open above (0x62 ∷ []) 5 (state 3 8 0))
no_permission_lem_example =
    no_permission_lem above (state 3 8 0) (0x62 ∷ []) above-IsFresh
      (state-IsValid 3 8 0 (omega arith) (omega arith)) 3 5 buf 5 refl refl refl refl refl refl refl
      refl

no_mem_lem_example :
    ((max_file_size < 3 + 2) × (ufs_write (pos 1) buf (state 3 8 0) ≡ fail no_mem (state 3 8 0)))
    ⊎ ((3 + 2 ≤ max_file_size)
        × Returns (λ (m, gs). m ≡ pos 2) (ufs_write (pos 1) buf (state 3 8 0)))
no_mem_lem_example =
    no_mem_lem (state 3 8 0) (pos 1) buf (state-Found 3 8 0 (omega arith) (omega arith)) refl
      (omega arith) (omega arith)
