-- ===== src/Userfs/Chop.antt =====
-- The loops of `ufs_resize`: what they do to a chain of blocks.
use iu_sp.Base.{
  ℕ, zero, suc, ◌+◌, ◌-◌, ◌≤◌, ◌<◌, ◌≡◌, refl, ap, ◌∙◌, List, [], ◌∷◌, ◌++◌, arith, length, take,
  ok, ◌>>=◌, Returns, returns, Returns-map, Returns-bind, All, All-append, length-append,
}
use iu_sp.Userfs.Block.{Block, block_size, calloc_block}
use iu_sp.Userfs.Resize.{drop_last, free_blocks, occupy_last, append_blocks, last_occupied}
use iu_sp.Userfs.Invariant.{IsBlock}

drop_last-take : (b : Block) (bs : List Block) → drop_last (b ∷ bs) ≡ take (length bs) (b ∷ bs)
unfolding drop_last
drop_last-take b [] = refl
drop_last-take b (c ∷ bs) = ap (◌∷◌ b) (drop_last-take c bs)

pub take-take_le {ℓ} : {A : Type ℓ} (m n : ℕ) (xs : List A) → m ≤ n → take m (take n xs) ≡ take m xs
take-take_le zero n xs h = refl
take-take_le (suc m) zero xs h = absurd (omega arith)
take-take_le (suc m) (suc n) [] h = refl
take-take_le (suc m) (suc n) (x ∷ xs) h = ap (◌∷◌ x) (take-take_le m n xs (omega arith))

take-whole : (bs : List Block) (n : ℕ) → n ≡ length bs → take n bs ≡ bs
take-whole [] zero h = refl
take-whole [] (suc n) h = absurd (omega arith)
take-whole (b ∷ bs) zero h = absurd (omega arith)
take-whole (b ∷ bs) (suc n) h = ap (◌∷◌ b) (take-whole bs n (omega arith))

take_at : (bs : List Block) {m n : ℕ} → m ≡ n → take m bs ≡ take n bs
take_at bs e = ap (λ k. take k bs) e

length-take_le : (n : ℕ) (bs : List Block) → n ≤ length bs → length (take n bs) ≡ n
length-take_le zero bs h = refl
length-take_le (suc n) [] h = absurd (omega arith)
length-take_le (suc n) (b ∷ bs) h = ap suc (length-take_le n bs (omega arith))

-- Freeing `k` blocks from the end leaves the blocks before them.
pub free_blocks-take :
    (k : ℕ) (bs : List Block) → k ≤ length bs → free_blocks k bs ≡ ok (take (length bs - k) bs)
unfolding free_blocks
free_blocks-take zero bs h =
    ap ok (λ i. mathlib.Core.Path.sym (take-whole bs (length bs - 0) (omega arith)) i)
free_blocks-take (suc k) [] h = absurd (omega arith)
free_blocks-take (suc k) (b ∷ bs) h =
    let whole = b ∷ bs in
    let shorter = length-take_le (length bs) whole (omega arith) in
    ap (free_blocks k) (drop_last-take b bs)
    ∙ free_blocks-take k (take (length bs) whole) (omega (arith, shorter))
    ∙ ap ok (
        take-take_le (length (take (length bs) whole) - k) (length bs) whole
          (omega (arith, shorter))
        ∙ take_at whole (omega (arith, shorter)))

-- The last block gets a new `occupied`; nothing else changes.
pub occupy_last-Returns :
    (n : ℕ) (bs : List Block)
    → 0 < length bs
    → n ≤ block_size
    → All IsBlock bs
    → Returns (λ cs. All IsBlock cs × (length cs ≡ length bs)) (occupy_last n bs)
unfolding occupy_last
occupy_last-Returns n [] h le sound = absurd (omega arith)
occupy_last-Returns n (b ∷ []) h le sound =
    returns ((record { sized = sound.0.sized; within = le }, tt), refl)
occupy_last-Returns n (b ∷ c ∷ bs) h le sound =
    Returns-bind (occupy_last-Returns n (c ∷ bs) (omega arith) le sound.1)
      λ cs r. returns ((sound.0, r.0), ap suc r.1)

pub calloc_block-IsBlock : IsBlock calloc_block
unfolding calloc_block
calloc_block-IsBlock = record { sized = refl; within = omega arith }

-- The loop that grows a chain appends `k` blocks.
pub append_blocks-Returns :
    (k : ℕ) (bs : List Block)
    → All IsBlock bs
    → Returns (λ cs. All IsBlock cs × (length cs ≡ length bs + k)) (append_blocks k bs)
unfolding append_blocks
append_blocks-Returns zero bs sound = returns (sound, omega arith)
append_blocks-Returns (suc k) [] sound =
    Returns-map (append_blocks-Returns k (calloc_block ∷ []) (calloc_block-IsBlock, tt))
      λ cs r. (r.0, omega (arith, r.1))
append_blocks-Returns (suc k) (b ∷ bs) sound =
    Returns-bind (occupy_last-Returns block_size (b ∷ bs) (omega arith) (omega arith) sound)
      λ full r.
        Returns-map
          (append_blocks-Returns k (full ++ calloc_block ∷ [])
            (All-append IsBlock full (calloc_block ∷ []) r.0 (calloc_block-IsBlock, tt)))
          λ cs s. (s.0, omega (arith, s.1, r.1, length-append full (calloc_block ∷ [])))

pub last_occupied-le : (n : ℕ) → last_occupied n ≤ block_size
last_occupied-le n = ground arith

-- a block in front of others stays as it is
pub occupy_last-cons :
    (n : ℕ) (b : Block) (bs : List Block)
    → 0 < length bs
    → occupy_last n (b ∷ bs) ≡ (occupy_last n bs >>= λ rest. ok (b ∷ rest))
unfolding occupy_last
occupy_last-cons n b [] h = absurd (omega arith)
occupy_last-cons n b (c ∷ bs) h = refl
