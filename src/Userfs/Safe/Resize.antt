-- ===== src/Userfs/Safe/Resize.antt =====
-- `ufs_resize` keeps the invariant and has no fault.
use iu_sp.Base.{
  ℕ, ◌+◌, ◌-◌, ◌*◌, ◌≤◌, ◌<◌, ◌≡◌, refl, inl, inr, List, [], ◌∷◌, map, arith, ltb, ◌==◌, length,
  take, ok, ◌>>=◌, ◌>>◌, assert, Returns, returns, Returns-if, Returns-bind, ltb→lt, All, All-take,
  length-map, length-take,
}
use iu_sp.Int.{ℤ}
use iu_sp.Userfs.Block.{Block, block_size, max_file_size}
use iu_sp.Userfs.State.{no_file, no_mem, not_implemented, File, FileDesc, Ufs, store_file}
use iu_sp.Userfs.Resize.{
  block_count, last_occupied, occupy_last, clamp_desc, shrink_file, grow_file, resize_file,
  ufs_resize,
}
use iu_sp.Userfs.Table.{total-clamp_open}
use iu_sp.Userfs.Invariant.{IsBlock, IsFile, IsValid, IsValid-weaken, Linked-weaken}
use iu_sp.Userfs.Sizes.{Linked-grow, Linked-shrink}
use iu_sp.Userfs.Chop.{
  free_blocks-take, occupy_last-Returns, append_blocks-Returns, last_occupied-le,
}
use iu_sp.Userfs.Safe.Desc.{Found, find_desc-cases, IsValid-error}

-- the same file at another size, with sound blocks for it
pub record Resized (n : ℕ) (f : File) (size : ℕ) (g : File) : Type 0 where
  pub valid : IsFile n g
  pub sized : g.size ≡ size
  pub refs : g.refs ≡ f.refs
  pub is_ghost : g.is_ghost ≡ f.is_ghost
  pub name : g.name ≡ f.name

-- the end of a shrink, from the blocks that are left
shrink_end :
    {n : ℕ} (f : File) (size : ℕ) (bs : List Block)
    → All IsBlock bs
    → size ≤ block_size * length bs
    → length bs ≤ n
    → Returns (Resized n f size) (elim bs [
      | [] ↦
          assert (size == 0)
          >> assert (block_count size == 0)
          >> ok (record f { blocks = []; size = 0 })
      | b ∷ rest ↦ occupy_last (last_occupied size) (b ∷ rest) >>= λ bs'.
          ok (record f { blocks = bs'; size = size })
    ])
shrink_end f size [] sound covered short =
    let zero : size ≡ 0 = omega arith in
    rw zero (
      returns (record {
        valid = record { sound = tt; covered = omega arith; short = omega arith };
        sized = refl;
        refs = refl;
        is_ghost = refl;
        name = refl;
      }))
shrink_end f size (b ∷ bs) sound covered short =
    Returns-bind
      (occupy_last-Returns (last_occupied size) (b ∷ bs) (omega arith) (last_occupied-le size)
        sound)
      λ cs r. returns (record {
        valid = record { sound = r.0; covered = omega (arith, r.1); short = omega (arith, r.1) };
        sized = refl;
        refs = refl;
        is_ghost = refl;
        name = refl;
      })

pub shrink_file-Returns :
    {n : ℕ} (f : File) (size : ℕ)
    → IsFile n f
    → size < f.size
    → Returns (Resized n f size) (shrink_file f size)
unfolding shrink_file
shrink_file-Returns f size s lt =
    let gone = block_count f.size - block_count size in
    rw (free_blocks-take gone f.blocks (omega (arith, s.covered)), shrink_file)
      (shrink_end f size (take (length f.blocks - gone) f.blocks)
        (All-take IsBlock (length f.blocks - gone) f.blocks s.sound)
        (omega (arith, s.covered, length-take (length f.blocks - gone) f.blocks))
        (omega (arith, s.short, length-take (length f.blocks - gone) f.blocks)))

-- the blocks that a call to resize to `size` bytes adds at most
abbrev pub resize_cost : ℕ → ℕ
resize_cost size = block_count size

pub grow_file-Returns :
    {n : ℕ} (f : File) (size : ℕ)
    → IsFile n f
    → f.size < size
    → Returns
        (λ g. Resized (n + resize_cost size) f size g × (length f.blocks ≤ length g.blocks))
        (grow_file f size)
unfolding grow_file
grow_file-Returns f size s lt =
    Returns-bind (append_blocks-Returns (block_count size - block_count f.size) f.blocks s.sound)
      λ bs r.
        Returns-bind
          (occupy_last-Returns (last_occupied size) bs (omega (arith, r.1, s.covered))
            (last_occupied-le size) r.0)
          λ cs t. returns (
            record {
              valid = record {
                sound = t.0;
                covered = omega (arith, t.1, r.1, s.covered);
                short = omega (arith, t.1, r.1, s.short);
              };
              sized = refl;
              refs = refl;
              is_ghost = refl;
              name = refl;
            },
            omega (arith, t.1, r.1),
          )

module _ {n : ℕ} (fs : Ufs) (fd : ℤ) (i : ℕ) (desc : FileDesc) (f : File) (size : ℕ)
    (found : Found n fs fd i desc f) (v : IsValid n fs) where
  shrunk :
      (g : File)
      → Resized n f size g
      → IsValid n (record fs {
        file_list = store_file fs.file_list desc.file g;
        file_descriptors = map (clamp_desc desc.file size) fs.file_descriptors;
      })
  shrunk g r = record {
    linked = rw (mathlib.Core.Path.sym r.sized) (
        Linked-shrink fs.file_list fs.file_descriptors v.linked desc.file f g found.live r.valid
          r.refs r.is_ghost r.name);
    used = omega (arith, v.used, total-clamp_open desc.file size fs.file_descriptors);
    capacity =
        omega (arith, v.capacity, length-map (clamp_desc desc.file size) fs.file_descriptors);
  }

  grown :
      (g : File)
      → Resized (n + resize_cost size) f size g × (length f.blocks ≤ length g.blocks)
      → IsValid
          (n + resize_cost size)
          (record fs { file_list = store_file fs.file_list desc.file g })
  grown g (r, more) = record {
    linked =
        Linked-grow fs.file_list fs.file_descriptors (Linked-weaken {m = n} (omega arith) v.linked)
          desc.file f g found.live r.valid r.refs r.is_ghost r.name (omega (arith, more));
    used = v.used;
    capacity = v.capacity;
  }

  resize_file-IsValid :
      Returns (λ r. IsValid (n + resize_cost size) r.1) (resize_file desc.file f size fs)
  unfolding resize_file
  resize_file-IsValid =
      let v' = IsValid-weaken {n = n + resize_cost size} (omega arith) v in
      Returns-if (size == f.size) (λ _. returns v')
        λ _.
          Returns-if (ltb size f.size)
            (λ less.
              Returns-bind (shrink_file-Returns f size found.sound (ltb→lt _ _ less))
                λ g r. returns (IsValid-weaken {m = n} (omega arith) (shrunk g r)))
            λ _.
              Returns-if (ltb f.size size)
                (λ more.
                  Returns-if (ltb max_file_size size) (λ _. returns (IsValid-error no_mem v'))
                    λ _.
                      Returns-bind (grow_file-Returns f size found.sound (ltb→lt _ _ more))
                        λ g r. returns (grown g r))
                λ _. returns (IsValid-error not_implemented v')

-- `ufs_resize` keeps the invariant and has no fault, its assertions included.
pub ufs_resize-IsValid :
    {n : ℕ} (fs : Ufs) (fd : ℤ) (size : ℕ)
    → IsValid n fs
    → Returns (λ r. IsValid (n + resize_cost size) r.1) (ufs_resize fd size fs)
unfolding ufs_resize
ufs_resize-IsValid {n} fs fd size v = elim (find_desc-cases fs fd v) [
  | inl missing ↦
      rw missing (returns (IsValid-error no_file (IsValid-weaken {m = n} (omega arith) v)))
  | inr (i, desc, f, found) ↦
      rw (found.found, found.live) (resize_file-IsValid fs fd i desc f size found v)
]
