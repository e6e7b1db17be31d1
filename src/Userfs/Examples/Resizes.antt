-- ===== src/Userfs/Examples/Resizes.antt =====
-- The theorems on `ufs_resize` at small files.
use iu_sp.Base.{◌≡◌, map, arith, take, Returns}
use iu_sp.Int.{pos}
use iu_sp.Userfs.State.{File}
use iu_sp.Userfs.Resize.{ufs_resize, clamp_desc}
use iu_sp.Userfs.Content.{bytes, IsLaid}
use iu_sp.Userfs.Contract.Write.{Replaced}
use iu_sp.Userfs.Contract.Resize.{ufs_resize-shrink, ufs_resize-grow}
use iu_sp.Userfs.Examples.{file, desc, state, state-Found}
use iu_sp.Userfs.Examples.Writes.{block-IsLaid}

-- 8 bytes become 3, with the descriptor at 5
ufs_resize-shrink_example :
    Returns
      (λ (m, gs).
        (m ≡ pos 0)
        × ((g : File) × Replaced (state 8 8 5) 1 g gs
            × (bytes g.blocks ≡ take 3 (bytes (file 8).blocks))
            × (g.size ≡ 3)
            × IsLaid g.blocks 3)
        × (gs.file_descriptors ≡ map (clamp_desc 1 3) (state 8 8 5).file_descriptors))
      (ufs_resize (pos 1) 3 (state 8 8 5))
ufs_resize-shrink_example =
    ufs_resize-shrink (state 8 8 5) (pos 1) 0 (desc 8 5) (file 8) 3
      (state-Found 8 8 5 (omega arith) (omega arith)) (block-IsLaid 8 (omega arith) (omega arith))
      (omega arith)

-- 8 bytes become 1200, in two blocks more
ufs_resize-grow_example :
    Returns
      (λ (m, gs).
        (m ≡ pos 0)
        × ((g : File) × Replaced (state 8 8 5) 1 g gs
            × (take 8 (bytes g.blocks) ≡ bytes (file 8).blocks)
            × (g.size ≡ 1200)
            × IsLaid g.blocks 1200)
        × (gs.file_descriptors ≡ (state 8 8 5).file_descriptors))
      (ufs_resize (pos 1) 1200 (state 8 8 5))
ufs_resize-grow_example =
    ufs_resize-grow (state 8 8 5) (pos 1) 0 (desc 8 5) (file 8) 1200
      (state-Found 8 8 5 (omega arith) (omega arith)) (block-IsLaid 8 (omega arith) (omega arith))
      (omega arith) (omega arith)
