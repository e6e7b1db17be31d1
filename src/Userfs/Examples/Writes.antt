-- ===== src/Userfs/Examples/Writes.antt =====
-- The theorems on writes and reads at small files.
use iu_sp.Base.{
  ℕ, ◌+◌, ◌≤◌, ◌<◌, ◌≡◌, refl, some, [], ◌∷◌, map, arith, length, set, take, max, ok, ◌>>=◌,
  Returns,
}
use iu_sp.Int.{pos}
use iu_sp.Userfs.Block.{block_size}
use iu_sp.Userfs.State.{File, Ufs, find_file, store_file, find_desc, desc_at}
use iu_sp.Userfs.Write.{ufs_write}
use iu_sp.Userfs.Read.{ufs_read}
use iu_sp.Userfs.Content.{bytes, IsLaid, window}
use iu_sp.Userfs.Appending.{overwrite}
use iu_sp.Userfs.Reading.{ufs_read-window}
use iu_sp.Userfs.Safe.Desc.{Found}
use iu_sp.Userfs.Safe.Write.{state_after, file_after, file_after-IsFile}
use iu_sp.Userfs.Written.Sound.{write_blocks-cover}
use iu_sp.Userfs.Contract.Write.{Replaced, ufs_write-overwrite, ufs_write-astray, write-read}
use iu_sp.Userfs.Examples.{buf, block, file, desc, state, block-IsBlock, file-IsFile, state-Found}

-- a partial block, with the offset at its end
pub block-IsLaid : (k : ℕ) → 0 < k → k ≤ block_size → IsLaid (block k ∷ []) k
block-IsLaid k pos_k h = (block-IsBlock k h, pos_k, omega arith, omega arith)

ufs_write-overwrite_example :
    Returns
      (λ (m, gs).
        (m ≡ pos 2)
        × ((g : File) × Replaced (state 3 8 3) 1 g gs
            × (bytes g.blocks ≡ overwrite (bytes (file 3).blocks) 3 buf)
            × (g.size ≡ max 3 5)
            × IsLaid g.blocks g.size))
      (ufs_write (pos 1) buf (state 3 8 3))
ufs_write-overwrite_example =
    ufs_write-overwrite (state 3 8 3) (pos 1) 0 (desc 8 3) (file 3) buf
      (state-Found 3 8 3 (omega arith) (omega arith)) refl (omega arith) (omega arith)
      (block-IsLaid 3 (omega arith) (omega arith)) (omega arith) (omega arith)

ufs_write-astray_example :
    Returns
      (λ (m, gs).
        (m ≡ pos 2)
        × ((g : File) × Replaced (state 512 8 0) 1 g gs
            × (g.size ≡ 512)
            × (take 512 (bytes g.blocks) ≡ bytes (file 512).blocks)
            × (1 < length g.blocks)))
      (ufs_write (pos 1) buf (state 512 8 0))
ufs_write-astray_example =
    ufs_write-astray (state 512 8 0) (pos 1) 0 (desc 8 0) (file 512) buf
      (state-Found 512 8 0 (omega arith) (omega arith)) refl (omega arith) (omega arith)
      (block-IsLaid 512 (omega arith) (omega arith)) (omega arith) (omega arith)

ufs_read-window_example :
    ufs_read (pos 1) 2 (state 3 8 1)
    ≡ ok (
      pos (length (window (file 3).blocks 1 2)),
      window (file 3).blocks 1 2,
      record (state 3 8 1) {
        file_descriptors =
            set
              (state 3 8 1).file_descriptors
              0
              (some (desc 8 (1 + length (window (file 3).blocks 1 2))));
      },
    )
ufs_read-window_example =
    ufs_read-window (state 3 8 1) (pos 1) 0 (desc 8 1) (file 3) 2
      (state-Found 3 8 1 (omega arith) (omega arith)) (block-IsLaid 3 (omega arith) (omega arith))
      (omega arith) (omega arith) refl

-- two descriptors at the end of the one file
abbrev two : Ufs
two = record (state 3 8 3) {
  file_descriptors = some (desc 8 3) ∷ some (desc 8 3) ∷ [];
  file_list = (1, record (file 3) { refs = 2 }) ∷ [];
  used = 2;
}

two-Found : Found 1 two (pos 1) 0 (desc 8 3) (record (file 3) { refs = 2 })
unfolding find_desc desc_at find_file
two-Found =
    let s = file-IsFile 3 (omega arith) in
    record {
      found = refl;
      number = refl;
      slot = refl;
      live = refl;
      inside = omega arith;
      sound = record { sound = s.sound; covered = s.covered; short = s.short };
    }

abbrev written_two : File
written_two = file_after (record (file 3) { refs = 2 }) (desc 8 3) buf

again-Found :
    Found 3
      (state_after two 0 (desc 8 3) (record (file 3) { refs = 2 }) buf)
      (pos 2)
      1
      (desc 8 3)
      written_two
unfolding find_desc desc_at find_file store_file
again-Found = record {
  found = refl;
  number = refl;
  slot = refl;
  live = refl;
  inside = omega (arith, write_blocks-cover (file 3).blocks 3 buf (omega arith));
  sound = file_after-IsFile two (pos 1) 0 (desc 8 3) (record (file 3) { refs = 2 }) buf two-Found;
}

write-read_example :
    Returns
      (λ r. (r.0 ≡ pos 2) × (r.1 ≡ map some buf))
      (ufs_write (pos 1) buf two >>= λ r. ufs_read (pos 2) 2 r.1)
write-read_example =
    write-read two (pos 1) 0 (desc 8 3) (record (file 3) { refs = 2 }) buf two-Found refl
      (omega arith) (omega arith) (pos 2) 1 (desc 8 3) (block-IsLaid 3 (omega arith) (omega arith))
      (omega arith) (omega arith) again-Found refl refl refl (omega arith)
