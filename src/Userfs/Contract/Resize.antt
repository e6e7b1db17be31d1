-- ===== src/Userfs/Contract/Resize.antt =====
-- What a file holds after `ufs_resize` makes it shorter or longer.
use iu_sp.Base.{
  ℕ, suc, ◌-◌, ◌≤◌, ◌<◌, ◌≡◌, refl, sym, ap, ◌∙◌, subst, inl, inr, true, false, List, [], ◌∷◌, ◌++◌,
  map, arith, ltb, ◌==◌, length, take, Run, ok, fault, out_of_fuel, ◌>>=◌, ◌>>◌, assert, Returns,
  returns, Returns-bind, Bool-cases, ltb→lt, ltb→le, length-take, take-append_le, take-append_ge,
}
use mathlib.Core.List.{append-nil}
use iu_sp.Int.{ℤ, pos}
use iu_sp.Userfs.Block.{Block, block_size, max_file_size}
use iu_sp.Userfs.State.{Ptr, File, FileDesc, Ufs}
use iu_sp.Userfs.Resize.{
  block_count, last_occupied, occupy_last, clamp_desc, shrink_file, grow_file, append_blocks,
  resize_file, ufs_resize,
}
use iu_sp.Userfs.Files.{find-store}
use iu_sp.Userfs.Chop.{free_blocks-take, take-take_le, occupy_last-cons}
use iu_sp.Userfs.Content.{bytes, IsLaid, IsLaid-length}
use iu_sp.Userfs.Stretch.{grown_chain}
use iu_sp.Userfs.Safe.Desc.{Found}
use iu_sp.Userfs.Contract.Write.{Replaced}

-- a chain that holds the first `size` of the bytes
abbrev Chopped : List Block → ℕ → List Block → Type 0
Chopped bs size cs = (bytes cs ≡ take size (bytes bs)) × IsLaid cs size

-- the cut in the first block
chop_here :
    (b : Block) (bs : List Block) (total size : ℕ)
    → IsLaid (b ∷ bs) total
    → 0 < size
    → size ≤ block_size
    → size ≤ total
    → Chopped (b ∷ bs) size (record b { occupied = size } ∷ [])
chop_here b bs total size l some_size here inside = (
  append-nil (take size b.memory)
      ∙ sym (
          take-append_le size (take b.occupied b.memory) (bytes bs)
            (omega (arith, length-take b.occupied b.memory, l.0.sized))
          ∙ take-take_le size b.occupied b.memory (omega arith)),
  (record { sized = l.0.sized; within = here }, omega arith, omega arith, omega arith),
)

chopped :
    (bs : List Block) (total size : ℕ)
    → IsLaid bs total
    → 0 < size
    → size ≤ total
    → Returns (Chopped bs size) (occupy_last (last_occupied size) (take (block_count size) bs))
unfolding occupy_last
chopped [] total size l some_size inside = absurd (omega arith)
chopped (b ∷ bs) total size l some_size inside = elim (Bool-cases (ltb block_size size)) [
  | inl later ↦
      let lt = ltb→lt _ _ later in
      let rest = size - block_size in
      let more : block_count size ≡ suc (block_count rest) = omega arith in
      let last : last_occupied size ≡ last_occupied rest = ground (arith, lt) in
      let behind = IsLaid-length bs (total - block_size) l.3 in
      let cs = take (block_count rest) bs in
      let full : length (take b.occupied b.memory) ≡ block_size =
        omega (arith, length-take b.occupied b.memory, l.0.sized) in
      rw more (
        rw last (
          subst (Returns (Chopped (b ∷ bs) size))
            (sym (
              occupy_last-cons (last_occupied rest) b cs
                (omega (arith, length-take (block_count rest) bs, behind.0))))
            (Returns-bind (chopped bs (total - block_size) rest l.3 (omega arith) (omega arith))
              λ ds p. returns (
                ap (λ t. take b.occupied b.memory ++ t)
                      (p.0 ∙ ap (λ k. take (size - k) (bytes bs)) (sym full))
                    ∙ sym (
                        take-append_ge size (take b.occupied b.memory) (bytes bs)
                          (omega (arith, full))),
                (l.0, some_size, omega arith, p.1),
              ))))
  | inr here ↦
      let le = ltb→le _ _ here in
      let one : block_count size ≡ suc 0 = omega arith in
      let last : last_occupied size ≡ size = ground (arith, le) in
      rw one (rw last (returns (chop_here b bs total size l some_size le inside)))
]

-- the file with its first `size` bytes
record Shrunk (f : File) (size : ℕ) (g : File) : Type 0 where
  held : bytes g.blocks ≡ take size (bytes f.blocks)
  sized : g.size ≡ size
  laid : IsLaid g.blocks size

shrink_end :
    (f : File) (size : ℕ) (bs : List Block)
    → (0 < length bs → Returns (Chopped f.blocks size) (occupy_last (last_occupied size) bs))
    → (length bs ≡ 0 → size ≡ 0)
    → Returns (Shrunk f size) (elim bs [
      | [] ↦
          assert (size == 0)
          >> assert (block_count size == 0)
          >> ok (record f { blocks = []; size = 0 })
      | b ∷ rest ↦ occupy_last (last_occupied size) (b ∷ rest) >>= λ bs'.
          ok (record f { blocks = bs'; size = size })
    ])
shrink_end f size [] some_left none_left =
    let zero : size ≡ 0 = none_left refl in
    rw zero (returns (record { held = refl; sized = refl; laid = refl }))
shrink_end f size (b ∷ bs) some_left none_left =
    Returns-bind (some_left (omega arith))
      λ cs p. returns (record { held = p.0; sized = refl; laid = p.1 })

shrink_file-Shrunk :
    (f : File) (size : ℕ)
    → IsLaid f.blocks f.size
    → size < f.size
    → Returns (Shrunk f size) (shrink_file f size)
unfolding shrink_file
shrink_file-Shrunk f size l lt =
    let gone = block_count f.size - block_count size in
    let blocks = IsLaid-length f.blocks f.size l in
    let left : length f.blocks - gone ≡ block_count size = omega (arith, blocks.0, blocks.1) in
    rw (free_blocks-take gone f.blocks (omega (arith, blocks.0, blocks.1)), shrink_file)
      (rw left (
        shrink_end f size (take (block_count size) f.blocks)
          (λ some_left.
            chopped f.blocks f.size size l
              (omega (arith, some_left, length-take (block_count size) f.blocks)) (omega arith))
          (λ none_left.
            omega (arith, none_left, blocks.0, blocks.1, length-take (block_count size) f.blocks))))

-- the file with more bytes
record Grown (f : File) (size : ℕ) (g : File) : Type 0 where
  held : take f.size (bytes g.blocks) ≡ bytes f.blocks
  sized : g.size ≡ size
  laid : IsLaid g.blocks size

-- the two loops, and the file that they give
stretch_file :
    {A : Type 0} (m : Run A) (h : A → Run (List Block)) (f : List Block → File)
    → ((m >>= h) >>= λ bs. ok (f bs)) ≡ (m >>= λ a. h a >>= λ bs. ok (f bs))
stretch_file (ok a) h f = refl
stretch_file fault h f = refl
stretch_file out_of_fuel h f = refl

grow_file-Grown :
    (f : File) (size : ℕ)
    → IsLaid f.blocks f.size
    → f.size < size
    → Returns (Grown f size) (grow_file f size)
unfolding grow_file
grow_file-Grown f size l more =
    let n = block_count size - block_count f.size in
    subst (Returns (Grown f size))
      (stretch_file (append_blocks n f.blocks) (occupy_last (last_occupied size))
        (λ bs. record f { blocks = bs; size = size }))
      (Returns-bind (grown_chain f.blocks f.size size l more)
        λ cs p. returns (record { held = p.0; sized = refl; laid = p.1 }))

module _ {n : ℕ} (fs : Ufs) (fd : ℤ) (i : ℕ) (desc : FileDesc) (f : File) (size : ℕ)
    (found : Found n fs fd i desc f) where
  -- A resize through an open descriptor to fewer bytes, of a file whose blocks are full but for the
  -- last, returns 0; the file holds the first `size` of its bytes in blocks that are again full but
  -- for the last, the other files stay, and no descriptor of it stands behind its end.
  pub ufs_resize-shrink :
      IsLaid f.blocks f.size
      → size < f.size
      → Returns
          (λ (m, gs).
            (m ≡ pos 0)
            × ((g : File) × Replaced fs desc.file g gs
                × (bytes g.blocks ≡ take size (bytes f.blocks))
                × (g.size ≡ size)
                × IsLaid g.blocks size)
            × (gs.file_descriptors ≡ map (clamp_desc desc.file size) fs.file_descriptors))
          (ufs_resize fd size fs)
  unfolding ufs_resize resize_file
  ufs_resize-shrink laid less =
      let other : (size == f.size) ≡ false = ground arith in
      let smaller : ltb size f.size ≡ true = ground arith in
      rw (found.found, found.live, other, smaller)
        (Returns-bind (shrink_file-Shrunk f size laid less) λ g s.
          let at = λ (q : Ptr). find-store fs.file_list desc.file q g found.live in
          returns (
            refl,
            (
              g,
              record { here = ground (arith, at desc.file); others = λ q ne. ground (arith, at q) },
              s.held,
              s.sized,
              s.laid,
            ),
            refl,
          ))

  -- A resize through an open descriptor to more bytes, at most MAX_FILE_SIZE, of a file whose blocks
  -- are full but for the last, returns 0; the file begins with its old bytes, it has as many as asked
  -- for in blocks that are again full but for the last, and the other files and all descriptors stay.
  pub ufs_resize-grow :
      IsLaid f.blocks f.size
      → f.size < size
      → size ≤ max_file_size
      → Returns
          (λ (m, gs).
            (m ≡ pos 0)
            × ((g : File) × Replaced fs desc.file g gs
                × (take f.size (bytes g.blocks) ≡ bytes f.blocks)
                × (g.size ≡ size)
                × IsLaid g.blocks size)
            × (gs.file_descriptors ≡ fs.file_descriptors))
          (ufs_resize fd size fs)
  unfolding ufs_resize resize_file
  ufs_resize-grow laid more fits =
      let other : (size == f.size) ≡ false = ground (arith, more) in
      let smaller : ltb size f.size ≡ false = ground (arith, more) in
      let larger : ltb f.size size ≡ true = ground (arith, more) in
      let small : ltb max_file_size size ≡ false = ground (arith, fits) in
      rw (found.found, found.live, other, smaller, larger, small)
        (Returns-bind (grow_file-Grown f size laid more) λ g s.
          let at = λ (q : Ptr). find-store fs.file_list desc.file q g found.live in
          returns (
            refl,
            (
              g,
              record { here = ground (arith, at desc.file); others = λ q ne. ground (arith, at q) },
              s.held,
              s.sized,
              s.laid,
            ),
            refl,
          ))
