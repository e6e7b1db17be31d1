-- ===== src/Userfs/Appending.antt =====
-- What a write leaves in the blocks: a write in or behind the last block, and a write elsewhere.
use iu_sp.Base.{
  ℕ, zero, suc, ◌+◌, ◌-◌, ◌%◌, ◌≤◌, ◌<◌, ◌≡◌, refl, sym, ap, subst, ◌∙◌, inl, inr, some, List, [],
  ◌∷◌, ◌++◌, map, arith, ltb, length, take, drop, min, max, Bool-cases, ltb→lt, ltb→le, length-take,
  length-drop, length-map, drop-all, drop-nil, take_cong, take-append-drop, drop-take, take-take,
  take-append_ge,
}
use mathlib.Core.List.{append-nil, map-append}
use iu_sp.Userfs.Block.{Byte, Block, block_size, malloc_block}
use iu_sp.Userfs.Invariant.{IsBlock}
use iu_sp.Userfs.Chain.{written, room, chunks, chunks-nil, length-room}
use iu_sp.Userfs.Written.Sound.{written-IsBlock, malloc_block-IsBlock}
use iu_sp.Userfs.Content.{bytes, IsLaid}

-- what is to stand in a file of the bytes `old` after a write at `offset`
abbrev pub overwrite : List Byte → ℕ → List ℕ → List Byte
overwrite old offset buf = take offset old ++ (map some buf ++ drop (offset + length buf) old)

pub join : {us vs ws zs : List Byte} → us ≡ vs → ws ≡ zs → us ++ ws ≡ vs ++ zs
join p q i = p i ++ q i

-- a buffer in two parts
pub map-split :
    (n : ℕ) (buf : List ℕ) → map some (take n buf) ++ map some (drop n buf) ≡ map some buf
map-split n buf =
    sym (map-append some (take n buf) (drop n buf)) ∙ ap (map some) (take-append-drop n buf)

-- The blocks behind the first one are filled from their start on.
pub chunks-next :
    (fuel start : ℕ) (buf : List ℕ)
    → start < block_size
    → chunks fuel ((start + room start buf) % block_size) (drop (room start buf) buf)
      ≡ chunks fuel 0 (drop (room start buf) buf)
chunks-next fuel start buf lt = elim (Bool-cases (ltb (length buf) (block_size - start))) [
  | inl short ↦
      let none_left : drop (room start buf) buf ≡ [] =
        drop-all (room start buf) buf (omega (arith, ltb→lt _ _ short)) in
      rw none_left (chunks-nil fuel _ ∙ sym (chunks-nil fuel 0))
  | inr long ↦
      let next : (start + room start buf) % block_size ≡ 0 = omega (arith, ltb→le _ _ long) in
      ap (λ s. chunks fuel s (drop (room start buf) buf)) next
]

-- The occupied bytes of a block after one round.
pub bytes-written :
    (b : Block) (start : ℕ) (buf : List ℕ)
    → IsBlock b
    → start ≤ b.occupied
    → take (written b start buf).occupied (written b start buf).memory
      ≡ overwrite (take b.occupied b.memory) start buf
bytes-written b start buf s le =
    take-append_ge n (take start mem) _ (omega (arith, length-take start mem))
    ∙ join front (
        take-append_ge _ (map some buf) (drop (start + length buf) mem)
          (omega (arith, length-take start mem, length-map {B = Byte} some buf, s.sized, s.within))
        ∙ ap (λ t. map some buf ++ t)
            (take_cong {n = b.occupied - (start + length buf)} (drop (start + length buf) mem) (
                omega
                  (arith, length-take start mem, length-map {B = Byte} some buf, s.sized, s.within))
              ∙ sym (drop-take (start + length buf) b.occupied mem)))
  where
    mem : List Byte
    mem = b.memory

    n : ℕ
    n = max b.occupied (start + length buf)

    front : take start mem ≡ take start (take b.occupied mem)
    front =
        sym
          (take-take start b.occupied mem ∙ take_cong {m = min start b.occupied} mem (omega arith))

-- New blocks, filled from the start on, hold exactly the bytes.
pub bytes-chunks :
    (fuel : ℕ) (buf : List ℕ)
    → length buf ≤ fuel
    → (bytes (chunks fuel 0 buf) ≡ map some buf) × IsLaid (chunks fuel 0 buf) (length buf)
unfolding chunks malloc_block
bytes-chunks fuel [] h =
    (ap bytes (chunks-nil fuel 0), subst (λ c. IsLaid c 0) (sym (chunks-nil fuel 0)) refl)
bytes-chunks zero (x ∷ buf) h = absurd (omega arith)
bytes-chunks (suc fuel) (x ∷ buf) h =
    let ih = bytes-chunks fuel rest (omega (arith, length-drop count (x ∷ buf))) in
    let next = chunks-next fuel 0 (x ∷ buf) (omega arith) in
    (
      join first (ap bytes next ∙ ih.0) ∙ map-split count (x ∷ buf),
      (
        written-IsBlock malloc_block 0 (x ∷ buf) malloc_block-IsBlock (omega arith),
        omega arith,
        omega (arith, length-room 0 (x ∷ buf)),
        subst (λ c. IsLaid c (length (x ∷ buf) - block_size)) (sym next)
            (subst (IsLaid (chunks fuel 0 rest)) (omega (arith, length-drop count (x ∷ buf))) ih.1),
      ),
    )
  where
    count : ℕ
    count = room 0 (x ∷ buf)

    part : List ℕ
    part = take count (x ∷ buf)

    rest : List ℕ
    rest = drop count (x ∷ buf)

    first :
        take (written malloc_block 0 part).occupied (written malloc_block 0 part).memory
        ≡ map some part
    first =
        bytes-written malloc_block 0 part malloc_block-IsBlock (omega arith)
        ∙ ap (λ t. map some part ++ t) (drop-nil (0 + length part))
        ∙ append-nil (map some part)
