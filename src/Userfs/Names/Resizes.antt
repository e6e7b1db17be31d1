-- ===== src/Userfs/Names/Resizes.antt =====
-- What a resize and a read of homework-03/userfs.c do to the names.
use iu_sp.Base.{
  ℕ, ◌-◌, set, ◌>>◌, assert, ◌≡◌, refl, not, ◌&&◌, Option, none, some, List, [], ◌∷◌, ltb, length,
  ◌==◌, if◌then◌else◌, ok, or_fault, ◌>>=◌, WhenOk, when_ok, WhenOk-bind, WhenOk-any,
}
use iu_sp.Int.{ℤ, pos}
use iu_sp.Userfs.State.{
  Ptr, Name, File, FileDesc, Ufs, find_file, find_desc, has_flag, no_file, no_permission, fail,
  ufs_read_write, ufs_read_only,
}
use iu_sp.Userfs.Block.{Block, Byte, max_file_size}
use iu_sp.Userfs.Read.{read_blocks, failed, ufs_read}
use iu_sp.Userfs.Resize.{
  shrink_file, grow_file, resize_file, ufs_resize, free_blocks, append_blocks, occupy_last,
  block_count, last_occupied,
}
use iu_sp.Userfs.Names.{shows}
use iu_sp.Userfs.Names.Calls.{SameNames, WhenOk-if, WhenOk-or_fault, stored-SameNames, unchanged}

-- a resize makes another chain of the file
shrink_file-shows :
    (f : File) (size : ℕ)
    → WhenOk (λ g. (name : Name) → shows g name ≡ shows f name) (shrink_file f size)
unfolding shrink_file
shrink_file-shows f size =
    WhenOk-bind (WhenOk-any (free_blocks (block_count f.size - block_count size) f.blocks))
      λ bs _. go bs
  where
    go :
        (bs : List Block)
        → WhenOk
            (λ g. (name : Name) → shows g name ≡ shows f name)
            (elim bs [
              | [] ↦
                  assert (size == 0)
                  >> assert (block_count size == 0)
                  >> ok (record f { blocks = []; size = 0 })
              | b ∷ rest ↦ (do
                bs' ← occupy_last (last_occupied size) (b ∷ rest)
                ok (record f { blocks = bs'; size = size }))
            ])
    go [] =
        WhenOk-bind (WhenOk-any (assert (size == 0) >> assert (block_count size == 0)))
          λ _ _. when_ok λ name. refl
    go (b ∷ rest) =
        WhenOk-bind (WhenOk-any (occupy_last (last_occupied size) (b ∷ rest)))
          λ bs' _. when_ok λ name. refl

grow_file-shows :
    (f : File) (size : ℕ)
    → WhenOk (λ g. (name : Name) → shows g name ≡ shows f name) (grow_file f size)
unfolding grow_file
grow_file-shows f size =
    WhenOk-bind (WhenOk-any (append_blocks (block_count size - block_count f.size) f.blocks))
      λ bs _.
        WhenOk-bind (WhenOk-any (occupy_last (last_occupied size) bs)) λ bs' _. when_ok λ name. refl

pub ufs_resize-SameNames :
    (fd : ℤ) (size : ℕ) (fs : Ufs) → WhenOk (λ r. SameNames fs r.1) (ufs_resize fd size fs)
unfolding ufs_resize resize_file
ufs_resize-SameNames fd size fs = WhenOk-bind (WhenOk-any (find_desc fd fs)) λ found _. go found
  where
    resized :
        (p : Ptr) (f : File)
        → find_file fs.file_list p ≡ some f
        → WhenOk (λ r. SameNames fs r.1) (resize_file p f size fs)
    resized p f e =
        WhenOk-if (size == f.size) (λ _. unchanged fs _ refl)
          λ _.
            WhenOk-if (ltb size f.size)
              (λ _.
                WhenOk-bind (shrink_file-shows f size)
                  λ g same. when_ok (stored-SameNames fs p f g e same))
              λ _.
                WhenOk-if (ltb f.size size)
                  (λ _.
                    WhenOk-if (ltb max_file_size size) (λ _. unchanged fs _ refl)
                      λ _.
                        WhenOk-bind (grow_file-shows f size)
                          λ g same. when_ok (stored-SameNames fs p f g e same))
                  λ _. unchanged fs _ refl

    go :
        (found : Option (ℕ × FileDesc))
        → WhenOk
            (λ r. SameNames fs r.1)
            (elim found [
              | none ↦ fail no_file fs
              | some (_, desc) ↦ (do
                f ← or_fault (find_file fs.file_list desc.file)
                resize_file desc.file f size fs)
            ])
    go none = unchanged fs _ refl
    go (some (_, desc)) =
        WhenOk-bind (WhenOk-or_fault (find_file fs.file_list desc.file))
          λ f e. resized desc.file f e

pub ufs_read-SameNames :
    (fd : ℤ) (size : ℕ) (fs : Ufs)
    → WhenOk (λ (r : ℤ × List Byte × Ufs). SameNames fs r.2) (ufs_read fd size fs)
unfolding ufs_read
ufs_read-SameNames fd size fs = WhenOk-bind (WhenOk-any (find_desc fd fs)) λ found _. go found
  where
    go :
        (found : Option (ℕ × FileDesc))
        → WhenOk
            (λ (r : ℤ × List Byte × Ufs). SameNames fs r.2)
            (elim found [
              | none ↦ failed (fail no_file fs)
              | some (i, desc) ↦
                  if not (has_flag desc.open_flags ufs_read_only)
                    && not (has_flag desc.open_flags ufs_read_write)
                  then failed (fail no_permission fs)
                  else do
                    f ← or_fault (find_file fs.file_list desc.file)
                    (out, offset) ← read_blocks desc f size
                    ok (
                      pos (length out),
                      out,
                      record fs {
                        file_descriptors =
                            set fs.file_descriptors i (some (record desc { offset = offset }));
                      },
                    )
            ])
    go none = when_ok λ name. refl
    go (some (i, desc)) =
        WhenOk-if
          (not (has_flag desc.open_flags ufs_read_only)
            && not (has_flag desc.open_flags ufs_read_write))
          (λ _. when_ok λ name. refl)
          λ _. WhenOk-bind (WhenOk-or_fault (find_file fs.file_list desc.file)) λ f e.
            WhenOk-bind (WhenOk-any (read_blocks desc f size))
              λ (out, offset) _. when_ok λ name. refl
