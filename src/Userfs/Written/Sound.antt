-- ===== src/Userfs/Written/Sound.antt =====
-- The chain after a write is sound and reaches the end of the write.
use iu_sp.Base.{
  ℕ, zero, suc, ◌+◌, ◌*◌, ◌/◌, ◌%◌, ◌≤◌, ◌<◌, ◌≡◌, ◌⊎◌, refl, sym, subst, ◌∙◌, ltb→lt, ltb→le, true,
  false, some, inl, inr, List, [], ◌∷◌, ◌++◌, map, arith, ◌==◌, ltb, Bool-cases, length, get_elem?,
  set, take, drop, lt-get_elem?, length-set, length-append, length-take, length-drop, length-map,
  All, All-append, All-set, All-get_elem?, Option-cases,
}
use iu_sp.Userfs.Block.{Byte, Block, block_size, malloc_block}
use iu_sp.Userfs.Invariant.{IsBlock}
use iu_sp.Userfs.Chain.{patch, written, room, chunks, chunks-nil, length-room}
use iu_sp.Userfs.Written.{write_at, write_blocks}

length-patch :
    (mem : List Byte) (start : ℕ) (buf : List ℕ)
    → start + length buf ≤ length mem
    → length (patch mem start buf) ≡ length mem
length-patch mem start buf h = omega (
  arith,
  length-append (take start mem) (map some buf ++ drop (start + length buf) mem),
  length-append (map some buf) (drop (start + length buf) mem),
  length-map {B = Byte} some buf,
  length-take start mem,
  length-drop (start + length buf) mem,
)

pub written-IsBlock :
    (b : Block) (start : ℕ) (buf : List ℕ)
    → IsBlock b
    → start < block_size
    → IsBlock (written b start (take (room start buf) buf))
written-IsBlock b start buf s lt = record {
  sized =
      length-patch b.memory start (take (room start buf) buf)
        (omega (arith, length-room start buf, s.sized))
      ∙ s.sized;
  within = omega (arith, length-room start buf, s.within);
}

pub malloc_block-IsBlock : IsBlock malloc_block
unfolding malloc_block
malloc_block-IsBlock = record { sized = refl; within = omega arith }

chunks-IsBlock :
    (fuel start : ℕ) (buf : List ℕ) → start < block_size → All IsBlock (chunks fuel start buf)
unfolding chunks
chunks-IsBlock fuel start [] h = subst (All IsBlock) (sym (chunks-nil fuel start)) tt
chunks-IsBlock zero start (x ∷ buf) h = tt
chunks-IsBlock (suc fuel) start (x ∷ buf) h = (
  written-IsBlock malloc_block start (x ∷ buf) malloc_block-IsBlock h,
  chunks-IsBlock fuel ((start + room start (x ∷ buf)) % block_size)
      (drop (room start (x ∷ buf)) (x ∷ buf)) (omega arith),
)

-- The new blocks reach as far as the bytes go.
pub chunks-cover :
    (fuel start : ℕ) (buf : List ℕ)
    → start < block_size
    → length buf ≤ fuel
    → 0 < length buf
    → start + length buf ≤ block_size * length (chunks fuel start buf)
unfolding chunks
chunks-cover fuel start [] h enough pos = absurd (omega arith)
chunks-cover zero start (x ∷ buf) h enough pos = absurd (omega arith)
chunks-cover (suc fuel) start (x ∷ buf) h enough pos = elim (Bool-cases (ltb 0 (length rest))) [
  | inl more ↦ omega (
    arith,
    chunks-cover fuel ((start + count) % block_size) rest (omega arith)
        (omega (arith, length-drop count (x ∷ buf))) (ground arith),
    length-drop count (x ∷ buf),
  )
  | inr last ↦
      let none_left : length rest ≡ 0 = ground arith in
      omega (arith, none_left, length-drop count (x ∷ buf))
]
  where
    count : ℕ
    count = room start (x ∷ buf)

    rest : List ℕ
    rest = drop count (x ∷ buf)

-- The chain after a write is sound, is not shorter, and reaches the end of the write.
pub write_blocks-IsBlock :
    (bs : List Block) (offset : ℕ) (buf : List ℕ)
    → All IsBlock bs
    → All IsBlock (write_blocks bs offset buf)
unfolding write_at
write_blocks-IsBlock bs offset [] sound = sound
write_blocks-IsBlock bs offset (x ∷ buf) sound =
    elim (Option-cases (get_elem? bs (offset / block_size))) [
      | inl e ↦ rw (e, write_at) (appended bs sound)
      | inr (b, e) ↦
          rw (e, write_at)
            (elim (Bool-cases (b.occupied == block_size)) [
              | inl full ↦ rw full (appended bs sound)
              | inr free ↦ rw free (
                  All-append IsBlock _ _
                    (All-set IsBlock bs (offset / block_size) _ sound (
                      written-IsBlock b (offset % block_size) (x ∷ buf)
                        (All-get_elem? IsBlock bs (offset / block_size) sound e) (omega arith)))
                    (chunks-IsBlock (length buf) _ _ (omega arith)))
            ])
    ]
  where
    appended :
        (cs : List Block)
        → All IsBlock cs
        → All IsBlock (cs ++ chunks (length (x ∷ buf)) (offset % block_size) (x ∷ buf))
    appended cs h =
        All-append IsBlock cs _ h (chunks-IsBlock (length (x ∷ buf)) _ (x ∷ buf) (omega arith))

pub write_blocks-cover :
    (bs : List Block) (offset : ℕ) (buf : List ℕ)
    → offset ≤ block_size * length bs
    → (offset + length buf ≤ block_size * length (write_blocks bs offset buf))
      × (length bs ≤ length (write_blocks bs offset buf))
unfolding write_at
write_blocks-cover bs offset [] h = omega arith
write_blocks-cover bs offset (x ∷ buf) h =
    elim (Option-cases (get_elem? bs (offset / block_size))) [
      | inl e ↦ rw (e, write_at) appended
      | inr (b, e) ↦
          rw (e, write_at)
            (elim (Bool-cases (b.occupied == block_size)) [
              | inl full ↦ rw full appended
              | inr free ↦ rw free (behind b e (Bool-cases (ltb 0 (length rest))))
            ])
    ]
  where
    start : ℕ
    start = offset % block_size

    count : ℕ
    count = room start (x ∷ buf)

    rest : List ℕ
    rest = drop count (x ∷ buf)

    appended :
        (offset + length (x ∷ buf)
          ≤ block_size * length (bs ++ chunks (length (x ∷ buf)) start (x ∷ buf)))
        × (length bs ≤ length (bs ++ chunks (length (x ∷ buf)) start (x ∷ buf)))
    appended = omega (
      arith,
      length-append bs (chunks (length (x ∷ buf)) start (x ∷ buf)),
      chunks-cover (length (x ∷ buf)) start (x ∷ buf) (omega arith) (omega arith) (omega arith),
    )

    behind :
        (b : Block)
        → get_elem? bs (offset / block_size) ≡ some b
        → (ltb 0 (length rest) ≡ true) ⊎ (ltb 0 (length rest) ≡ false)
        → let cs =
            set bs (offset / block_size) (written b start (take count (x ∷ buf)))
            ++ chunks (length buf) ((start + count) % block_size) rest in
          (offset + length (x ∷ buf) ≤ block_size * length cs) × (length bs ≤ length cs)
    behind b e (inl more) = omega (
      arith,
      length-append (set bs (offset / block_size) (written b start (take count (x ∷ buf))))
          (chunks (length buf) ((start + count) % block_size) rest),
      length-set bs (offset / block_size) (written b start (take count (x ∷ buf))),
      chunks-cover (length buf) ((start + count) % block_size) rest (omega arith)
          (omega (arith, length-drop count (x ∷ buf))) (ltb→lt _ _ more),
      length-drop count (x ∷ buf),
      ltb→lt _ _ more,
      lt-get_elem? bs (offset / block_size) e,
    )
    behind b e (inr last) = omega (
      arith,
      length-append (set bs (offset / block_size) (written b start (take count (x ∷ buf))))
          (chunks (length buf) ((start + count) % block_size) rest),
      length-set bs (offset / block_size) (written b start (take count (x ∷ buf))),
      length-drop count (x ∷ buf),
      ltb→le _ _ last,
      lt-get_elem? bs (offset / block_size) e,
    )
