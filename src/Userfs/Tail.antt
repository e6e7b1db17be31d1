-- ===== src/Userfs/Tail.antt =====
-- A write from the last block on gives the bytes that it should; one before that goes astray.
use iu_sp.Base.{
  ℕ, suc, ◌+◌, ◌-◌, ◌/◌, ◌%◌, ◌≤◌, ◌<◌, ◌≡◌, sym, ap, subst, ◌∙◌, inl, inr, true, false, some, List,
  [], ◌∷◌, ◌++◌, map, arith, ◌==◌, ltb, length, take, drop, max, Bool-cases, ltb→lt, ltb→le,
  length-take, length-drop, take-all, drop-all, drop-nil, drop_cong, take-append-drop,
  drop-append_ge, take-append_ge,
}
use mathlib.Core.List.{append-nil, append_assoc}
use iu_sp.Userfs.Block.{Byte, Block, block_size}
use iu_sp.Userfs.Chain.{written, room, chunks, length-room}
use iu_sp.Userfs.Written.{write_at, write_blocks}
use iu_sp.Userfs.Written.Sound.{written-IsBlock}
use iu_sp.Userfs.Content.{bytes, IsLaid}
use iu_sp.Userfs.Appending.{overwrite, bytes-written, join, map-split, chunks-next, bytes-chunks}

-- A write behind the first block leaves that alone.
write_at-suc :
    (b : Block) (bs : List Block) (i start x : ℕ) (buf : List ℕ)
    → write_at (b ∷ bs) (suc i) start (x ∷ buf) ≡ b ∷ write_at bs i start (x ∷ buf)
unfolding write_at
write_at-suc b bs i start x buf = ground arith

write_at_cong :
    (bs : List Block) (buf : List ℕ) {i j s t : ℕ}
    → i ≡ j
    → s ≡ t
    → write_at bs i s buf ≡ write_at bs j t buf
write_at_cong bs buf p q k = write_at bs (p k) (q k) buf

write_blocks-cons :
    (b : Block) (bs : List Block) (offset x : ℕ) (buf : List ℕ)
    → block_size ≤ offset
    → write_blocks (b ∷ bs) offset (x ∷ buf) ≡ b ∷ write_blocks bs (offset - block_size) (x ∷ buf)
write_blocks-cons b bs offset x buf h =
    write_at_cong (b ∷ bs) (x ∷ buf) {j = suc ((offset - block_size) / block_size)}
      {t = (offset - block_size) % block_size} (omega arith) (omega arith)
    ∙ write_at-suc b bs ((offset - block_size) / block_size) ((offset - block_size) % block_size) x
        buf

-- A full block in front of the bytes that are overwritten.
overwrite-append :
    (xs ys : List Byte) (offset : ℕ) (buf : List ℕ)
    → length xs ≤ offset
    → overwrite (xs ++ ys) offset buf ≡ xs ++ overwrite ys (offset - length xs) buf
overwrite-append xs ys offset buf h =
    join (take-append_ge offset xs ys h) (
      ap (λ t. map some buf ++ t)
        (drop-append_ge (offset + length buf) xs ys (omega arith)
          ∙ drop_cong {m = offset + length buf - length xs} ys (omega arith)))
    ∙ append_assoc xs (take (offset - length xs) ys) _

-- the bytes and the layout after a write from the last block on
abbrev pub Wrote : List Block → ℕ → List ℕ → ℕ → List Block → Type 0
Wrote bs offset buf size cs =
    (bytes cs ≡ overwrite (bytes bs) offset buf) × IsLaid cs (max size (offset + length buf))

-- the write into a last block that is not full
last_block :
    (b : Block) (size offset x : ℕ) (buf : List ℕ)
    → IsLaid (b ∷ []) size
    → size < block_size
    → offset ≤ size
    → Wrote (b ∷ []) offset (x ∷ buf) size (
        written b offset (take (room offset (x ∷ buf)) (x ∷ buf))
        ∷ chunks
            (length buf)
            ((offset + room offset (x ∷ buf)) % block_size)
            (drop (room offset (x ∷ buf)) (x ∷ buf)))
last_block b size offset x buf l small inside =
    let new = bytes-chunks (length buf) rest (omega (arith, length-drop count (x ∷ buf))) in
    let next = chunks-next (length buf) offset (x ∷ buf) (omega arith) in
    (
      join (bytes-written b offset part l.0 (omega arith)) (ap bytes next ∙ new.0)
          ∙ append_assoc (take offset old) (map some part ++ drop (offset + length part) old) _
          ∙ ap (λ t. take offset old ++ t) behind
          ∙ ap (λ t. overwrite t offset (x ∷ buf)) (sym (append-nil old)),
      (
        written-IsBlock b offset (x ∷ buf) l.0 (omega arith),
        omega arith,
        omega (arith, length-room offset (x ∷ buf)),
        subst (λ c. IsLaid c (max size (offset + length (x ∷ buf)) - block_size)) (sym next)
            (subst (IsLaid (chunks (length buf) 0 rest))
              (omega (arith, length-drop count (x ∷ buf))) new.1),
      ),
    )
  where
    count : ℕ
    count = room offset (x ∷ buf)

    part : List ℕ
    part = take count (x ∷ buf)

    rest : List ℕ
    rest = drop count (x ∷ buf)

    old : List Byte
    old = take b.occupied b.memory

    length-old : length old ≡ size
    length-old = omega (arith, length-take b.occupied b.memory, l.0.sized)

    -- what is left of the old bytes comes behind all of `buf`
    behind :
        (map some part ++ drop (offset + length part) old) ++ map some rest
        ≡ map some (x ∷ buf) ++ drop (offset + length (x ∷ buf)) old
    behind = elim (Bool-cases (ltb (length (x ∷ buf)) (block_size - offset))) [
      | inl short ↦
          let lt = ltb→lt _ _ short in
          let none_left : rest ≡ [] = drop-all count (x ∷ buf) (omega arith) in
          let all : part ≡ x ∷ buf = take-all count (x ∷ buf) (omega arith) in
          rw (none_left, all, append-nil)
      | inr long ↦
          let le = ltb→le _ _ long in
          let gone : drop (offset + length part) old ≡ [] =
            drop-all (offset + length part) old
              (omega (arith, length-old, length-room offset (x ∷ buf))) in
          let gone' : drop (offset + length (x ∷ buf)) old ≡ [] =
            drop-all (offset + length (x ∷ buf)) old (omega (arith, length-old)) in
          ap (λ t. (map some part ++ t) ++ map some rest) gone
          ∙ ap (λ t. t ++ map some rest) (append-nil (map some part))
          ∙ map-split count (x ∷ buf)
          ∙ sym (append-nil (map some (x ∷ buf)))
          ∙ ap (λ t. map some (x ∷ buf) ++ t) (sym gone')
    ]

-- the write into the one block of a chain
one_block :
    (b : Block) (size offset x : ℕ) (buf : List ℕ)
    → IsLaid (b ∷ []) size
    → size < block_size
    → offset ≤ size
    → Wrote (b ∷ []) offset (x ∷ buf) size (write_blocks (b ∷ []) offset (x ∷ buf))
unfolding write_at
one_block b size offset x buf l small inside =
    let first : offset / block_size ≡ 0 = omega arith in
    let start : offset % block_size ≡ offset = omega arith in
    let free : (b.occupied == block_size) ≡ false = ground (arith, l.2) in
    subst (Wrote (b ∷ []) offset (x ∷ buf) size)
      (sym (write_at_cong (b ∷ []) (x ∷ buf) first start))
      (rw free (last_block b size offset x buf l small inside))

-- A write that starts in the last block, where that is not full, or at the end of the file.
pub write_blocks-overwrite :
    (bs : List Block) (size offset : ℕ) (buf : List ℕ)
    → IsLaid bs size
    → offset ≤ size
    → size / block_size ≤ offset / block_size
    → Wrote bs offset buf size (write_blocks bs offset buf)
unfolding write_at
write_blocks-overwrite bs size offset [] l inside last = (
  sym (take-append-drop offset (bytes bs))
      ∙ ap (λ t. take offset (bytes bs) ++ t)
          (drop_cong {m = offset} {n = offset + 0} (bytes bs) (omega arith)),
  subst (IsLaid bs) (omega arith) l,
)
write_blocks-overwrite [] size offset (x ∷ buf) l inside last =
    let new = bytes-chunks (length (x ∷ buf)) (x ∷ buf) (omega arith) in
    let start : offset % block_size ≡ 0 = omega arith in
    let zero : offset ≡ 0 = omega arith in
    rw (start, zero)
      (
        new.0
            ∙ sym (append-nil (map some (x ∷ buf)))
            ∙ ap (λ t. map some (x ∷ buf) ++ t) (sym (drop-nil (0 + length (x ∷ buf)))),
        subst (IsLaid (chunks (length (x ∷ buf)) 0 (x ∷ buf))) (omega arith) new.1,
      )
write_blocks-overwrite (b ∷ bs) size offset (x ∷ buf) l inside last =
    elim (Bool-cases (ltb offset block_size)) [
      | inl first ↦ let lt = ltb→lt _ _ first in only bs l lt
      | inr later ↦
          let le = ltb→le _ _ later in
          let ih =
            write_blocks-overwrite bs (size - block_size) (offset - block_size) (x ∷ buf) l.3
              (omega arith) (omega arith) in
          let full : length (take b.occupied b.memory) ≡ block_size =
            omega (arith, length-take b.occupied b.memory, l.0.sized) in
          subst (Wrote (b ∷ bs) offset (x ∷ buf) size)
            (sym (write_blocks-cons b bs offset x buf le))
            (
              ap (λ t. take b.occupied b.memory ++ t) ih.0
                  ∙ ap
                      (λ k. take b.occupied b.memory ++ overwrite (bytes bs) (offset - k) (x ∷ buf))
                      (sym full)
                  ∙ sym (
                      overwrite-append (take b.occupied b.memory) (bytes bs) offset (x ∷ buf)
                        (omega (arith, full))),
              (
                l.0,
                omega arith,
                omega arith,
                subst (IsLaid (write_blocks bs (offset - block_size) (x ∷ buf))) (omega arith) ih.1,
              ),
            )
    ]
  where
    only :
        (cs : List Block)
        → IsLaid (b ∷ cs) size
        → offset < block_size
        → Wrote (b ∷ cs) offset (x ∷ buf) size (write_blocks (b ∷ cs) offset (x ∷ buf))
    only [] m lt = one_block b size offset x buf m (omega arith) inside
    only (c ∷ cs) m lt = absurd (omega arith)

-- A write whose first block is full goes into new blocks at the end of the chain.
pub write_blocks-astray :
    (bs : List Block) (size offset : ℕ) (buf : List ℕ)
    → IsLaid bs size
    → offset / block_size < size / block_size
    → 0 < length buf
    → write_blocks bs offset buf ≡ bs ++ chunks (length buf) (offset % block_size) buf
unfolding write_at
write_blocks-astray bs size offset [] l before some_bytes = absurd (omega arith)
write_blocks-astray [] size offset (x ∷ buf) l before some_bytes = absurd (omega arith)
write_blocks-astray (b ∷ bs) size offset (x ∷ buf) l before some_bytes =
    elim (Bool-cases (ltb offset block_size)) [
      | inl first ↦
          let lt = ltb→lt _ _ first in
          let block : offset / block_size ≡ 0 = omega arith in
          let full : (b.occupied == block_size) ≡ true = ground (arith, l.2) in rw (block, full)
      | inr later ↦
          let le = ltb→le _ _ later in
          let start : (offset - block_size) % block_size ≡ offset % block_size = omega arith in
          write_blocks-cons b bs offset x buf le
          ∙ ap (◌∷◌ b) (
              write_blocks-astray bs (size - block_size) (offset - block_size) (x ∷ buf) l.3
                (omega arith) some_bytes
              ∙ ap (λ s. bs ++ chunks (length (x ∷ buf)) s (x ∷ buf)) start)
    ]
