-- ===== src/Userfs/Safe/Write.antt =====
-- `ufs_write` keeps the invariant and has no fault.
use iu_sp.Base.{
  ℕ, ◌+◌, ◌/◌, ◌%◌, ◌^◌, ◌≡◌, refl, inl, inr, not, ◌&&◌, some, List, arith, ◌==◌, ltb, length, set,
  max, ok, Returns, returns, Returns-if,
}
use native.Mathlib.Nat.{zero-add}
use iu_sp.Int.{ℤ}
use iu_sp.Userfs.Block.{block_size, max_file_size}
use iu_sp.Userfs.State.{
  no_file, no_mem, no_permission, File, FileDesc, Ufs, store_file, has_flag, ufs_write_only,
  ufs_read_write,
}
use iu_sp.Userfs.Write.{write_file, ufs_write}
use iu_sp.Userfs.Invariant.{IsFile, IsValid, IsValid-weaken, Linked-weaken}
use iu_sp.Userfs.Linking.{Linked-write}
use iu_sp.Userfs.Chain.{walk-block_ptr}
use iu_sp.Userfs.Written.{write_blocks, write_loop-write_blocks}
use iu_sp.Userfs.Written.Sound.{write_blocks-IsBlock, write_blocks-cover}
use iu_sp.Userfs.Written.Length.{length-write_blocks, write_cost}
use iu_sp.Userfs.Safe.Desc.{Found, find_desc-cases, IsValid-error, IsValid-set}

-- the file after the write
abbrev pub file_after : File → FileDesc → List ℕ → File
file_after f desc buf = record f {
  blocks = write_blocks f.blocks desc.offset buf;
  size = max f.size (desc.offset + length buf);
}

-- the state after the write
abbrev pub state_after : Ufs → ℕ → FileDesc → File → List ℕ → Ufs
state_after fs i desc f buf = record fs {
  file_list = store_file fs.file_list desc.file (file_after f desc buf);
  file_descriptors =
      set fs.file_descriptors i (some (record desc { offset = desc.offset + length buf }));
}

module _ {n : ℕ} (fs : Ufs) (fd : ℤ) (i : ℕ) (desc : FileDesc) (f : File) (buf : List ℕ)
    (found : Found n fs fd i desc f) where
  -- The write to the blocks has no fault, whatever the descriptor's offset.
  pub write_file-ok :
      write_file i desc f buf fs ≡ ok (ℤ.pos (length buf), state_after fs i desc f buf)
  unfolding write_file
  write_file-ok = rw (
    walk-block_ptr (desc.offset / block_size) 0 f.blocks (omega (arith, found.inside)),
    zero-add (desc.offset / block_size),
    write_loop-write_blocks f.blocks desc.offset buf found.sound.sound,
  )

  pub file_after-IsFile : IsFile (n + write_cost (length buf)) (file_after f desc buf)
  file_after-IsFile =
      let cover = write_blocks-cover f.blocks desc.offset buf found.inside in
      record {
        sound = write_blocks-IsBlock f.blocks desc.offset buf found.sound.sound;
        covered = omega (arith, found.sound.covered, cover);
        short = omega (arith, found.sound.short, length-write_blocks f.blocks desc.offset buf);
      }

  state_after-IsValid :
      IsValid n fs → IsValid (n + write_cost (length buf)) (state_after fs i desc f buf)
  state_after-IsValid v =
      let cover = write_blocks-cover f.blocks desc.offset buf found.inside in
      let l = Linked-weaken {n = n + write_cost (length buf)} (omega arith) v.linked in
      IsValid-set fs _ i _ v found.slot (
        Linked-write fs.file_list fs.file_descriptors l i desc f (file_after f desc buf)
          (desc.offset + length buf) found.slot found.live file_after-IsFile refl refl refl
          (omega (arith, cover)) (omega (arith, cover)))

  ufs_write_found :
      IsValid n fs → Returns (λ r. IsValid (n + write_cost (length buf)) r.1) (ufs_write fd buf fs)
  unfolding ufs_write
  ufs_write_found v =
      let v' = IsValid-weaken {n = n + write_cost (length buf)} (omega arith) v in
      rw (found.found, found.live)
        (Returns-if
          (not (has_flag desc.open_flags ufs_write_only)
            && not (has_flag desc.open_flags ufs_read_write))
          (λ _. returns (IsValid-error no_permission v'))
          λ _.
            Returns-if (length buf == 0) (λ _. returns v')
              λ _.
                Returns-if (ltb max_file_size ((f.size + length buf) % 2 ^ 64))
                  (λ _. returns (IsValid-error no_mem v'))
                  λ _. rw write_file-ok (returns (state_after-IsValid v)))

-- `ufs_write` keeps the invariant and has no fault.
pub ufs_write-IsValid :
    {n : ℕ} (fs : Ufs) (fd : ℤ) (buf : List ℕ)
    → IsValid n fs
    → Returns (λ r. IsValid (n + write_cost (length buf)) r.1) (ufs_write fd buf fs)
unfolding ufs_write
ufs_write-IsValid {n} fs fd buf v = elim (find_desc-cases fs fd v) [
  | inl missing ↦
      rw missing (returns (IsValid-error no_file (IsValid-weaken {m = n} (omega arith) v)))
  | inr (i, desc, f, found) ↦ ufs_write_found fs fd i desc f buf found v
]
