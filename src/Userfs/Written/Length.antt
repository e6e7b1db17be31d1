-- ===== src/Userfs/Written/Length.antt =====
-- How many blocks a write adds.
use iu_sp.Base.{
  ℕ, zero, suc, ◌+◌, ◌*◌, ◌/◌, ◌%◌, ◌≤◌, ◌<◌, ◌≡◌, ap, ltb→lt, inl, inr, List, [], ◌∷◌, ◌++◌, arith,
  ◌==◌, ltb, Bool-cases, length, get_elem?, set, take, drop, length-set, length-append, length-drop,
  Option-cases,
}
use iu_sp.Userfs.Block.{Block, block_size}
use iu_sp.Userfs.Chain.{written, room, chunks, chunks-nil}
use iu_sp.Userfs.Written.{write_at, write_blocks}

length-chunks_nil :
    (fuel start : ℕ) (buf : List ℕ) → length buf ≡ 0 → length (chunks fuel start buf) ≡ 0
length-chunks_nil fuel start [] h = ap length (chunks-nil fuel start)
length-chunks_nil fuel start (x ∷ buf) h = absurd (omega arith)

-- The new blocks are no more than the bytes need.
length-chunks :
    (fuel start : ℕ) (buf : List ℕ)
    → start < block_size
    → block_size * length (chunks fuel start buf) ≤ start + length buf + block_size
unfolding chunks
length-chunks fuel start [] h = omega (arith, ap length (chunks-nil fuel start))
length-chunks zero start (x ∷ buf) h = omega arith
length-chunks (suc fuel) start (x ∷ buf) h =
    let rest = drop (room start (x ∷ buf)) (x ∷ buf) in
    let next = (start + room start (x ∷ buf)) % block_size in
    elim (Bool-cases (ltb 0 (length rest))) [
      | inl more ↦ omega (
        arith,
        ltb→lt _ _ more,
        length-chunks fuel next rest (omega arith),
        length-drop (room start (x ∷ buf)) (x ∷ buf),
      )
      | inr last ↦
          let none_left : length rest ≡ 0 = ground arith in
          omega (arith, length-chunks_nil fuel next rest none_left)
    ]

-- the blocks that a write of `n` bytes adds at most
abbrev pub write_cost : ℕ → ℕ
write_cost n = n / block_size + 2

pub length-write_blocks :
    (bs : List Block) (offset : ℕ) (buf : List ℕ)
    → length (write_blocks bs offset buf) ≤ length bs + write_cost (length buf)
unfolding write_at
length-write_blocks bs offset [] = omega arith
length-write_blocks bs offset (x ∷ buf) = elim (Option-cases (get_elem? bs (offset / block_size))) [
  | inl e ↦ rw (e, write_at) appended
  | inr (b, e) ↦
      rw (e, write_at)
        (elim (Bool-cases (b.occupied == block_size)) [
          | inl full ↦ rw full appended
          | inr free ↦ rw free (
              omega (
                arith,
                length-append
                    (set bs (offset / block_size) (written b start (take count (x ∷ buf))))
                    (chunks (length buf) ((start + count) % block_size) rest),
                length-set bs (offset / block_size) (written b start (take count (x ∷ buf))),
                length-chunks (length buf) ((start + count) % block_size) rest (omega arith),
                length-drop count (x ∷ buf),
              ))
        ])
]
  where
    start : ℕ
    start = offset % block_size

    count : ℕ
    count = room start (x ∷ buf)

    rest : List ℕ
    rest = drop count (x ∷ buf)

    appended :
        length (bs ++ chunks (length (x ∷ buf)) start (x ∷ buf))
        ≤ length bs + write_cost (length (x ∷ buf))
    appended = omega (
      arith,
      length-append bs (chunks (length (x ∷ buf)) start (x ∷ buf)),
      length-chunks (length (x ∷ buf)) start (x ∷ buf) (omega arith),
    )
