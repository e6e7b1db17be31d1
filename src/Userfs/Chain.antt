-- ===== src/Userfs/Chain.antt =====
-- The walk and the loop of `ufs_write`, each as one equation: what they do to a chain of blocks.
use iu_sp.Base.{
  ℕ, zero, suc, ◌+◌, ◌-◌, ◌%◌, ◌≤◌, ◌<◌, ◌≡◌, refl, sym, ap, ◌∙◌, true, Option, some, List, [], ◌∷◌,
  ◌++◌, map, arith, ◌==◌, length, get_elem?, set, take, drop, min, max, Run, ok, lt→ltb,
  length-take, length-drop,
}
use mathlib.Core.List.{append_assoc, append-nil}
use iu_sp.Userfs.Block.{Byte, Block, block_size, write_memory, malloc_block}
use iu_sp.Userfs.Write.{block_ptr, walk, needs_block, writable, write_block, write_loop}

-- memory after a copy into it
abbrev pub patch : List Byte → ℕ → List ℕ → List Byte
patch mem start buf = take start mem ++ (map some buf ++ drop (start + length buf) mem)

-- a block after one round of the loop
abbrev pub written : Block → ℕ → List ℕ → Block
written b start buf = record {
  memory = patch b.memory start buf;
  occupied = max b.occupied (start + length buf);
}

-- the bytes that one round writes
abbrev pub room : ℕ → List ℕ → ℕ
room start buf = min (length buf) (block_size - start)

-- The new blocks that take `buf`, the first from `start` on, the others from 0 on.
unfoldable pub chunks : ℕ → ℕ → List ℕ → List Block
chunks fuel start [] = []
chunks zero start (x ∷ buf) = []
chunks (suc fuel) start (x ∷ buf) =
    written malloc_block start (take (room start (x ∷ buf)) (x ∷ buf))
    ∷ chunks fuel ((start + room start (x ∷ buf)) % block_size)
        (drop (room start (x ∷ buf)) (x ∷ buf))

pub chunks-nil : (fuel start : ℕ) → chunks fuel start [] ≡ []
unfolding chunks
chunks-nil zero start = refl
chunks-nil (suc fuel) start = refl

pub write_loop-nil :
    (fuel : ℕ) (bs : List Block) (cur : Option ℕ) (offset : ℕ)
    → write_loop fuel bs cur offset [] ≡ ok (bs, offset)
unfolding write_loop
write_loop-nil zero bs cur offset = refl
write_loop-nil (suc fuel) bs cur offset = refl

-- The walk of `n` rounds from block `i` ends at block `i + n`, or at NULL just past the chain.
pub walk-block_ptr :
    (n i : ℕ) (bs : List Block)
    → i + n ≤ length bs
    → walk n bs (block_ptr bs i) ≡ ok (block_ptr bs (i + n))
unfolding walk
walk-block_ptr zero i bs h = ap (λ k. ok (block_ptr bs k)) (omega arith)
walk-block_ptr (suc n) i bs h =
    rw (lt→ltb i (length bs) (omega arith), walk)
      (walk-block_ptr n (suc i) bs (omega arith) ∙ ap (λ k. ok (block_ptr bs k)) (omega arith))

get_elem?-last : (bs : List Block) (b : Block) → get_elem? (bs ++ b ∷ []) (length bs) ≡ some b
get_elem?-last [] b = refl
get_elem?-last (c ∷ bs) b = get_elem?-last bs b

set-last : (bs : List Block) (b c : Block) → set (bs ++ b ∷ []) (length bs) c ≡ bs ++ c ∷ []
set-last [] b c = refl
set-last (d ∷ bs) b c = ap (◌∷◌ d) (set-last bs b c)

-- one round of the loop on a block of full memory
pub write_block-written :
    (bs : List Block) (i start : ℕ) (buf : List ℕ) {b : Block}
    → get_elem? bs i ≡ some b
    → start + length buf ≤ length b.memory
    → write_block bs i start buf ≡ ok (set bs i (written b start buf))
unfolding write_block write_memory
write_block-written bs i start buf e h = rw e (ground arith)

pub length-room : (start : ℕ) (buf : List ℕ) → length (take (room start buf) buf) ≡ room start buf
length-room start buf = omega (arith, length-take (room start buf) buf)

length-malloc : length malloc_block.memory ≡ block_size
unfolding malloc_block
length-malloc = refl

-- what the loop returns
abbrev pub Written : Type 0
Written = Run (List Block × ℕ)

abbrev pub done : List Block → ℕ → Written
done bs n = ok (bs, n)

pub done_cong : {bs cs : List Block} {m n : ℕ} → bs ≡ cs → m ≡ n → done bs m ≡ done cs n
done_cong p q i = done (p i) (q i)

-- after a round that leaves some of `buf`, the block is full
pub full_after :
    (b : Block) (start : ℕ) (buf : List ℕ)
    → b.occupied ≤ block_size
    → 0 < length (drop (room start buf) buf)
    → start < block_size
    → ((written b start (take (room start buf) buf)).occupied == block_size) ≡ true
full_after b start buf le more lt =
    ground (arith, length-room start buf, length-drop (room start buf) buf)

-- one round of the loop where a new block is needed
round-new :
    (fuel : ℕ) (bs : List Block) (cur : Option ℕ) (offset x : ℕ) (buf : List ℕ)
    → needs_block bs cur ≡ ok true
    → write_loop (suc fuel) bs cur offset (x ∷ buf)
      ≡ write_loop fuel
          (bs
            ++ written malloc_block
                (offset % block_size)
                (take (room (offset % block_size) (x ∷ buf)) (x ∷ buf))
              ∷ [])
          (some (length bs))
          (offset + room (offset % block_size) (x ∷ buf))
          (drop (room (offset % block_size) (x ∷ buf)) (x ∷ buf))
unfolding write_loop writable
round-new fuel bs cur offset x buf full = rw (
  full,
  write_block-written (bs ++ malloc_block ∷ []) (length bs) (offset % block_size)
      (take (room (offset % block_size) (x ∷ buf)) (x ∷ buf)) (get_elem?-last bs malloc_block)
      (omega (arith, length-malloc, length-room (offset % block_size) (x ∷ buf))),
  set-last,
)

-- Where a new block is needed, everything goes into new blocks at the end of the chain.
pub write_loop-chunks :
    (fuel : ℕ) (bs : List Block) (cur : Option ℕ) (offset : ℕ) (buf : List ℕ)
    → length buf ≤ fuel
    → (0 < length buf → needs_block bs cur ≡ ok true)
    → write_loop fuel bs cur offset buf
      ≡ done (bs ++ chunks fuel (offset % block_size) buf) (offset + length buf)
unfolding chunks needs_block malloc_block
write_loop-chunks fuel bs cur offset [] h full =
    write_loop-nil fuel bs cur offset
    ∙ done_cong
        (sym (append-nil bs) ∙ ap (λ c. bs ++ c) (sym (chunks-nil fuel (offset % block_size))))
        (omega arith)
write_loop-chunks zero bs cur offset (x ∷ buf) h full = absurd (omega arith)
write_loop-chunks (suc fuel) bs cur offset (x ∷ buf) h full =
    round-new fuel bs cur offset x buf (full (omega arith))
    ∙ write_loop-chunks fuel (bs ++ w ∷ []) (some (length bs)) (offset + count) rest
        (omega (arith, length-drop count (x ∷ buf)))
        (λ more.
          rw (get_elem?-last bs w)
            (ap ok (full_after malloc_block start (x ∷ buf) (omega arith) more (omega arith))))
    ∙ done_cong
        (ap (λ s. (bs ++ w ∷ []) ++ chunks fuel s rest) (omega arith) ∙ append_assoc bs (w ∷ []) _)
        (omega (arith, length-drop count (x ∷ buf)))
  where
    start : ℕ
    start = offset % block_size

    count : ℕ
    count = room start (x ∷ buf)

    w : Block
    w = written malloc_block start (take count (x ∷ buf))

    rest : List ℕ
    rest = drop count (x ∷ buf)
