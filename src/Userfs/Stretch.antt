-- ===== src/Userfs/Stretch.antt =====
-- The chain that `ufs_resize` makes longer: its old bytes stay in front.
use iu_sp.Base.{
  ℕ, zero, suc, ◌-◌, ◌≤◌, ◌<◌, ◌≡◌, refl, sym, ap, ◌∙◌, subst, List, [], ◌∷◌, ◌++◌, arith, length,
  take, Run, ok, fault, out_of_fuel, ◌>>=◌, Returns, returns, Returns-map, Returns-bind,
  length-take, length-append, All, take-append_le, take-append_ge,
}
use mathlib.Core.List.{append-nil}
use iu_sp.Userfs.Block.{Byte, Block, block_size, calloc_block}
use iu_sp.Userfs.Resize.{block_count, last_occupied, occupy_last, append_blocks}
use iu_sp.Userfs.Invariant.{IsBlock}
use iu_sp.Userfs.Chop.{append_blocks-Returns, calloc_block-IsBlock, take-take_le, occupy_last-cons}
use iu_sp.Userfs.Content.{bytes, IsLaid, IsLaid-IsBlock, IsLaid-length}

-- the loop and what follows it
abbrev pub stretch : ℕ → ℕ → List Block → Run (List Block)
stretch k n bs = append_blocks k bs >>= occupy_last n

-- a round of the loop, behind a block
round-behind :
    (k : ℕ) (b : Block) (m : Run (List Block))
    → ((bs : List Block)
        → 0 < length bs
        → append_blocks k (b ∷ bs) ≡ (append_blocks k bs >>= λ rest. ok (b ∷ rest)))
    → ((m >>= λ rest. ok (b ∷ rest)) >>= λ full. append_blocks k (full ++ calloc_block ∷ []))
      ≡ ((m >>= λ full. append_blocks k (full ++ calloc_block ∷ [])) >>= λ rest. ok (b ∷ rest))
round-behind k b (ok xs) later =
    later (xs ++ calloc_block ∷ []) (omega (arith, length-append xs (calloc_block ∷ [])))
round-behind k b fault later = refl
round-behind k b out_of_fuel later = refl

-- a block in front of others stays as it is
append_blocks-cons :
    (k : ℕ) (b : Block) (bs : List Block)
    → 0 < length bs
    → append_blocks k (b ∷ bs) ≡ (append_blocks k bs >>= λ rest. ok (b ∷ rest))
unfolding append_blocks occupy_last
append_blocks-cons zero b bs h = refl
append_blocks-cons (suc k) b [] h = absurd (omega arith)
append_blocks-cons (suc k) b (c ∷ bs) h =
    round-behind k b (occupy_last block_size (c ∷ bs)) (λ xs h'. append_blocks-cons k b xs h')

occupied-behind :
    (n : ℕ) (b : Block) {m : Run (List Block)}
    → Returns (λ cs. 0 < length cs) m
    → ((m >>= λ rest. ok (b ∷ rest)) >>= occupy_last n)
      ≡ ((m >>= occupy_last n) >>= λ rest. ok (b ∷ rest))
occupied-behind n b (returns {x = cs} h) = occupy_last-cons n b cs h

stretch-cons :
    (k n : ℕ) (b : Block) (bs : List Block)
    → 0 < length bs
    → All IsBlock bs
    → stretch k n (b ∷ bs) ≡ (stretch k n bs >>= λ rest. ok (b ∷ rest))
stretch-cons k n b bs h sound =
    ap (λ m. m >>= occupy_last n) (append_blocks-cons k b bs h)
    ∙ occupied-behind n b
        (Returns-map (append_blocks-Returns k bs sound) λ cs r. omega (arith, r.1))

-- a longer chain, with its first `keep` bytes from `old`
abbrev pub Stretched : (keep size : ℕ) → List Byte → List Block → Type 0
Stretched keep size old cs = (take keep (bytes cs) ≡ old) × IsLaid cs size

-- the one block of a chain, and `k` blocks behind it
block-Stretched :
    (k : ℕ) (b : Block) (keep size : ℕ)
    → IsBlock b
    → keep ≤ block_size
    → keep ≤ size
    → 0 < size
    → block_count size ≡ suc k
    → Returns (Stretched keep size (take keep b.memory)) (stretch k (last_occupied size) (b ∷ []))
unfolding append_blocks occupy_last
block-Stretched zero b keep size s full inside some_size one =
    let last : last_occupied size ≡ size = ground (arith, one) in
    rw last (
      returns (
        ap (take keep) (append-nil (take size b.memory)) ∙ take-take_le keep size b.memory inside,
        (record { sized = s.sized; within = omega arith }, some_size, omega arith, omega arith),
      ))
block-Stretched (suc k) b keep size s full inside some_size more =
    let rest = size - block_size in
    let last : last_occupied size ≡ last_occupied rest = ground (arith, more) in
    let whole : length (take block_size b.memory) ≡ block_size =
      omega (arith, length-take block_size b.memory, s.sized) in
    rw last (
      subst (Returns (Stretched keep size (take keep b.memory)))
        (sym (
          stretch-cons k (last_occupied rest) (record b { occupied = block_size })
            (calloc_block ∷ []) (omega arith) (calloc_block-IsBlock, tt)))
        (Returns-bind
          (block-Stretched k calloc_block 0 rest calloc_block-IsBlock (omega arith) (omega arith)
            (omega arith) (omega arith))
          λ cs p. returns (
            take-append_le keep (take block_size b.memory) (bytes cs) (omega (arith, whole))
                ∙ take-take_le keep block_size b.memory full,
            (record { sized = s.sized; within = omega arith }, some_size, omega arith, p.1),
          )))

stretch-Stretched :
    (bs : List Block) (total size : ℕ)
    → IsLaid bs total
    → 0 < total
    → total ≤ size
    → Returns
        (Stretched total size (bytes bs))
        (stretch (block_count size - length bs) (last_occupied size) bs)
stretch-Stretched [] total size l some_bytes more = absurd (omega arith)
stretch-Stretched (b ∷ []) total size l some_bytes more =
    let old : take total b.memory ≡ take b.occupied b.memory ++ [] =
      ap (λ n. take n b.memory) (omega arith) ∙ sym (append-nil (take b.occupied b.memory)) in
    subst
      (λ xs.
        Returns (Stretched total size xs)
          (stretch (block_count size - 1) (last_occupied size) (b ∷ [])))
      old
      (block-Stretched (block_count size - 1) b total size l.0 (omega arith) more (omega arith)
        (omega arith))
stretch-Stretched (b ∷ c ∷ bs) total size l some_bytes more =
    let rest = size - block_size in
    let later : 0 < total - block_size = l.3.1 in
    let last : last_occupied size ≡ last_occupied rest = ground (arith, later, more) in
    let left : block_count size - suc (suc (length bs)) ≡ block_count rest - suc (length bs) =
      omega (arith, later, more) in
    let whole : length (take b.occupied b.memory) ≡ block_size =
      omega (arith, length-take b.occupied b.memory, l.0.sized, l.2, later) in
    rw last (
      rw left (
        subst (Returns (Stretched total size (bytes (b ∷ c ∷ bs))))
          (sym (
            stretch-cons (block_count rest - suc (length bs)) (last_occupied rest) b (c ∷ bs)
              (omega arith) (IsLaid-IsBlock (c ∷ bs) (total - block_size) l.3)))
          (Returns-bind
            (stretch-Stretched (c ∷ bs) (total - block_size) rest l.3 later (omega (arith, more)))
            λ cs p. returns (
              take-append_ge total (take b.occupied b.memory) (bytes cs)
                    (omega (arith, whole, later))
                  ∙ ap (λ n. take b.occupied b.memory ++ take (total - n) (bytes cs)) whole
                  ∙ ap (λ t. take b.occupied b.memory ++ t) p.0,
              (l.0, omega arith, omega (arith, l.2, later, more), p.1),
            ))))

-- The end of a resize to more bytes, from any chain.
pub grown_chain :
    (bs : List Block) (total size : ℕ)
    → IsLaid bs total
    → total < size
    → Returns
        (Stretched total size (bytes bs))
        (stretch (block_count size - block_count total) (last_occupied size) bs)
unfolding append_blocks
grown_chain [] total size l more =
    let none_yet : total ≡ 0 = l in
    let fresh : block_count size - block_count total ≡ suc (block_count size - 1) = omega arith in
    rw fresh (
      Returns-map
        (block-Stretched (block_count size - 1) calloc_block 0 size calloc_block-IsBlock
          (omega arith) (omega arith) (omega arith) (omega arith))
        λ cs p. (ap (λ n. take n (bytes cs)) none_yet, p.1))
grown_chain (b ∷ bs) total size l more =
    let blocks = IsLaid-length (b ∷ bs) total l in
    let counted : block_count total ≡ suc (length bs) = omega (arith, blocks.0, blocks.1) in
    rw counted (stretch-Stretched (b ∷ bs) total size l l.1 (omega arith))
