-- ===== src/Userfs/Content.antt =====
-- What a file holds, and `ufs_read` on a file whose blocks are full but for the last.
use iu_sp.Base.{
  ℕ, zero, suc, ◌+◌, ◌-◌, ◌*◌, ◌/◌, ◌%◌, ◌≤◌, ◌<◌, ◌≡◌, refl, sym, ap, ◌∙◌, inl, inr, List, [], ◌∷◌,
  ◌++◌, arith, leb, length, take, drop, min, Bool-cases, leb→le, leb→lt, All, length-append,
  length-take, take-all, drop-nil, take-drop-take, subst, drop-drop, take_cong, drop_cong,
  drop-append_ge,
}
use iu_sp.Userfs.Block.{Byte, Block, block_size}
use iu_sp.Userfs.Invariant.{IsBlock}

-- the occupied bytes of a chain, in order
abbrev pub bytes : List Block → List Byte
bytes [] = []
bytes (b ∷ bs) = take b.occupied b.memory ++ bytes bs

-- The chain holds `size` bytes: every block is full but the last, which is not empty.
abbrev pub IsLaid : List Block → ℕ → Type 0
IsLaid [] size = size ≡ 0
IsLaid (b ∷ bs) size =
    IsBlock b × (0 < size) × (b.occupied ≡ min block_size size) × IsLaid bs (size - block_size)

pub length-bytes : (bs : List Block) (size : ℕ) → IsLaid bs size → length (bytes bs) ≡ size
length-bytes [] size l = sym l
length-bytes (b ∷ bs) size l = omega (
  arith,
  length-append (take b.occupied b.memory) (bytes bs),
  length-take b.occupied b.memory,
  l.0.sized,
  length-bytes bs (size - block_size) l.3,
)

pub IsLaid-IsBlock : (bs : List Block) (size : ℕ) → IsLaid bs size → All IsBlock bs
IsLaid-IsBlock [] size l = tt
IsLaid-IsBlock (b ∷ bs) size l = (l.0, IsLaid-IsBlock bs (size - block_size) l.3)

-- a chain of `size` bytes has no more blocks than they need
pub IsLaid-length :
    (bs : List Block) (size : ℕ)
    → IsLaid bs size
    → (size ≤ block_size * length bs) × (block_size * length bs < size + block_size)
IsLaid-length [] size l = omega arith
IsLaid-length (b ∷ bs) size l = omega (arith, IsLaid-length bs (size - block_size) l.3)

pub bytes-nil : (bs : List Block) → IsLaid bs 0 → bytes bs ≡ []
bytes-nil [] l = refl
bytes-nil (b ∷ bs) l = absurd (omega arith)

-- the bytes that `ufs_read` is to find
abbrev pub window : List Block → ℕ → ℕ → List Byte
window bs start want = take want (drop start (bytes bs))

pub window-nil : (start want : ℕ) → window [] start want ≡ []
window-nil start want = ap (take want) (drop-nil start) ∙ take-all want [] (omega arith)

-- one block of the window, and the rest
pub window-cons :
    (b : Block) (bs : List Block) (size offset want : ℕ)
    → IsLaid (b ∷ bs) size
    → offset % block_size < b.occupied
    → let count = min (b.occupied - offset % block_size) want in
      window (b ∷ bs) (offset % block_size) want
      ≡ take count (drop (offset % block_size) b.memory)
        ++ window bs ((offset + count) % block_size) (want - count)
window-cons b bs size offset want l inside =
    take-drop-take b.memory (bytes bs) b.occupied start want (omega arith)
      (omega (arith, l.0.sized, l.0.within))
    ∙ ap (λ t. take count (drop start b.memory) ++ t) rest
  where
    start : ℕ
    start = offset % block_size

    count : ℕ
    count = min (b.occupied - start) want

    rest :
        take (want - (b.occupied - start)) (bytes bs)
        ≡ window bs ((offset + count) % block_size) (want - count)
    rest = elim (Bool-cases (leb want (b.occupied - start))) [
      | inl all ↦
          let le = leb→le _ _ all in
          take_cong {n = 0} (bytes bs) (omega arith)
          ∙ take_cong {m = 0} (drop ((offset + count) % block_size) (bytes bs)) (omega arith)
      | inr some_left ↦
          let lt = leb→lt _ _ some_left in
          elim (Bool-cases (leb block_size size)) [
            | inl full ↦
                let le = leb→le _ _ full in
                take_cong {n = want - count} (bytes bs) (omega arith)
                ∙ ap (take (want - count))
                    (drop_cong {m = 0} {n = (offset + count) % block_size} (bytes bs) (omega arith))
            | inr last ↦
                let lt' = leb→lt _ _ last in
                let none_left : bytes bs ≡ [] =
                  bytes-nil bs (subst (IsLaid bs) (omega arith) l.3) in
                rw none_left (
                  take-all (want - (b.occupied - start)) [] (omega arith)
                  ∙ sym (window-nil ((offset + count) % block_size) (want - count)))
          ]
    ]

pub IsLaid-drop :
    (k : ℕ) (bs : List Block) (size : ℕ)
    → IsLaid bs size
    → block_size * k ≤ size
    → IsLaid (drop k bs) (size - block_size * k)
IsLaid-drop zero bs size l h = subst (IsLaid bs) (omega arith) l
IsLaid-drop (suc k) [] size l h = omega arith
IsLaid-drop (suc k) (b ∷ bs) size l h =
    subst (IsLaid (drop k bs)) (omega arith)
      (IsLaid-drop k bs (size - block_size) l.3 (omega arith))

-- Without its first `k` blocks, the chain holds the bytes behind them.
pub bytes-drop :
    (k : ℕ) (bs : List Block) (size : ℕ)
    → IsLaid bs size
    → block_size * k ≤ size
    → bytes (drop k bs) ≡ drop (block_size * k) (bytes bs)
bytes-drop zero bs size l h = drop_cong {m = 0} {n = block_size * 0} (bytes bs) (omega arith)
bytes-drop (suc k) [] size l h = absurd (omega arith)
bytes-drop (suc k) (b ∷ bs) size l h =
    let first = take b.occupied b.memory in
    let full : length first ≡ block_size =
      omega (arith, length-take b.occupied b.memory, l.0.sized) in
    bytes-drop k bs (size - block_size) l.3 (omega arith)
    ∙ sym (
        drop-append_ge (block_size * suc k) first (bytes bs) (omega (arith, full))
        ∙ drop_cong {n = block_size * k} (bytes bs) (omega (arith, full)))

-- The window at an offset is the window of the blocks from the offset's block on.
pub window-drop :
    (bs : List Block) (size offset want : ℕ)
    → IsLaid bs size
    → offset ≤ size
    → window (drop (offset / block_size) bs) (offset % block_size) want ≡ window bs offset want
window-drop bs size offset want l h =
    ap (λ t. take want (drop (offset % block_size) t))
      (bytes-drop (offset / block_size) bs size l (omega arith))
    ∙ ap (take want) (
        drop-drop (offset % block_size) (block_size * (offset / block_size)) (bytes bs)
        ∙ drop_cong {n = offset} (bytes bs) (omega arith))
