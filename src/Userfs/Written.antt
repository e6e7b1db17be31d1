-- ===== src/Userfs/Written.antt =====
-- The chain that `ufs_write` leaves: one reference for the two ways of the loop.
pub mod Sound
pub mod Length
use iu_sp.Base.{
  ℕ, zero, suc, ◌+◌, ◌*◌, ◌/◌, ◌%◌, ◌≤◌, ◌<◌, ◌≡◌, ◌⊎◌, refl, sym, ap, subst, ◌∙◌, ltb→lt, ltb→le,
  true, false, none, some, inl, inr, List, [], ◌∷◌, ◌++◌, map, arith, ◌==◌, ltb, if◌then◌else◌,
  Bool-cases, length, get_elem?, set, take, drop, ok, lt→ltb, lt-get_elem?, get_elem?-set_self,
  length-set, length-append, length-take, length-drop, length-map, All, All-append, All-set,
  All-get_elem?, Option-cases, get_elem?-some,
}
use iu_sp.Userfs.Block.{Byte, Block, block_size, malloc_block}
use iu_sp.Userfs.Write.{block_ptr, needs_block, writable, write_loop}
use iu_sp.Userfs.Invariant.{IsBlock}
use iu_sp.Userfs.Chain.{
  patch, written, room, chunks, chunks-nil, done, done_cong, full_after, length-room,
  write_block-written, write_loop-nil, write_loop-chunks,
}

-- The chain after a write of `buf` from `start` in block `i` on: new blocks at its end, where that
-- block is missing or full, or else that block and then new blocks.
unfoldable pub write_at : List Block → ℕ → ℕ → List ℕ → List Block
write_at bs i start [] = bs
write_at bs i start (x ∷ buf) =
    let count = room start (x ∷ buf) in
    elim (get_elem? bs i) [
      | none ↦ bs ++ chunks (length (x ∷ buf)) start (x ∷ buf)
      | some b ↦
          if b.occupied == block_size
          then bs ++ chunks (length (x ∷ buf)) start (x ∷ buf)
          else set bs i (written b start (take count (x ∷ buf)))
            ++ chunks (length buf) ((start + count) % block_size) (drop count (x ∷ buf))
    ]

-- the same, for an offset in the file
abbrev pub write_blocks : List Block → ℕ → List ℕ → List Block
write_blocks bs offset buf = write_at bs (offset / block_size) (offset % block_size) buf

-- one round of the loop in a block that is not full, and the new blocks behind it
round-old :
    (bs : List Block) (i offset x : ℕ) (buf : List ℕ) (b : Block)
    → All IsBlock bs
    → get_elem? bs i ≡ some b
    → (b.occupied == block_size) ≡ false
    → write_loop (length (x ∷ buf)) bs (some i) offset (x ∷ buf)
      ≡ done
          (set bs i (
              written b
                (offset % block_size)
                (take (room (offset % block_size) (x ∷ buf)) (x ∷ buf)))
            ++ chunks
                (length buf)
                ((offset % block_size + room (offset % block_size) (x ∷ buf)) % block_size)
                (drop (room (offset % block_size) (x ∷ buf)) (x ∷ buf)))
          (offset + length (x ∷ buf))
unfolding write_loop writable needs_block
round-old bs i offset x buf b sound e free =
    rw
      (
        e,
        free,
        write_block-written bs i start (take count (x ∷ buf)) e
            (omega (arith, length-room start (x ∷ buf), s.sized)),
      )
      (write_loop-chunks (length buf) (set bs i w) (some i) (offset + count) rest
          (omega (arith, length-drop count (x ∷ buf)))
          (λ more.
            rw (get_elem?-set_self bs i w (lt-get_elem? bs i e))
              (ap ok (full_after b start (x ∷ buf) s.within more (omega arith))))
        ∙ done_cong (ap (λ t. set bs i w ++ chunks (length buf) t rest) (omega arith))
            (omega (arith, length-drop count (x ∷ buf))))
  where
    start : ℕ
    start = offset % block_size

    count : ℕ
    count = room start (x ∷ buf)

    w : Block
    w = written b start (take count (x ∷ buf))

    rest : List ℕ
    rest = drop count (x ∷ buf)

    s : IsBlock b
    s = All-get_elem? IsBlock bs i sound e

block_ptr-none : (bs : List Block) (i : ℕ) → get_elem? bs i ≡ none → block_ptr bs i ≡ none
block_ptr-none bs i e = elim (Bool-cases (ltb i (length bs))) [
  | inl lt ↦ absurd (clash (get_elem?-some bs i (ground arith)))
  | inr ge ↦ rw ge
]
  where
    clash : (a : Block) × (get_elem? bs i ≡ some a) → ⊥
    clash (a, h) = ground arith

-- From the block that the walk finds, the loop ends with the reference's chain.
pub write_loop-write_blocks :
    (bs : List Block) (offset : ℕ) (buf : List ℕ)
    → All IsBlock bs
    → write_loop (length buf) bs (block_ptr bs (offset / block_size)) offset buf
      ≡ done (write_blocks bs offset buf) (offset + length buf)
unfolding write_at needs_block
write_loop-write_blocks bs offset [] sound =
    write_loop-nil 0 bs (block_ptr bs (offset / block_size)) offset ∙ done_cong refl (omega arith)
write_loop-write_blocks bs offset (x ∷ buf) sound =
    elim (Option-cases (get_elem? bs (offset / block_size))) [
      | inl e ↦
          rw (block_ptr-none bs (offset / block_size) e, e, write_at)
            (write_loop-chunks (length (x ∷ buf)) bs none offset (x ∷ buf) (omega arith) λ _. refl)
      | inr (b, e) ↦
          rw (lt→ltb _ _ (lt-get_elem? bs (offset / block_size) e), e, write_at)
            (elim (Bool-cases (b.occupied == block_size)) [
              | inl full ↦ rw full (
                  write_loop-chunks (length (x ∷ buf)) bs (some (offset / block_size)) offset
                    (x ∷ buf) (omega arith) λ _. rw (e, full))
              | inr free ↦ rw free (round-old bs (offset / block_size) offset x buf b sound e free)
            ])
    ]
