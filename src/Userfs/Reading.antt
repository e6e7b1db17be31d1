-- ===== src/Userfs/Reading.antt =====
-- `ufs_read` returns the bytes of the file from the descriptor's offset on.
use iu_sp.Base.{
  ℕ, suc, ◌+◌, ◌-◌, ◌*◌, ◌/◌, ◌%◌, ◌^◌, ◌≤◌, ◌<◌, ◌≡◌, sym, ap, ◌∙◌, inl, inr, Bool, not, ◌&&◌,
  some, List, [], ◌∷◌, ◌++◌, arith, ltb, leb, length, set, take, drop, min, Run, ok, Bool-cases,
  ltb→le, leb→le, leb→lt, length-append, length-take, length-drop, take-all, drop-all, take_cong,
}
use mathlib.Core.List.{append-nil, append_assoc}
use iu_sp.Int.{ℤ, pos}
use iu_sp.Userfs.Block.{Byte, Block, block_size}
use iu_sp.Userfs.State.{File, FileDesc, Ufs, has_flag, ufs_read_only, ufs_read_write}
use iu_sp.Userfs.Read.{read_loop, read_blocks, ufs_read}
use iu_sp.Userfs.Safe.Desc.{Found}
use iu_sp.Userfs.Safe.Read.{read_memory-ok, block_offset-ok, skip_blocks-drop}
use iu_sp.Userfs.Content.{
  bytes, IsLaid, length-bytes, window, window-nil, window-cons, IsLaid-drop, window-drop,
}

abbrev Out : Type 0
Out = Run (List Byte × ℕ)

abbrev got : List Byte → ℕ → Out
got out offset = ok (out, offset)

got_cong : {xs ys : List Byte} {m n : ℕ} → xs ≡ ys → m ≡ n → got xs m ≡ got ys n
got_cong p q i = got (p i) (q i)

-- The loop appends the window of the chain, and the offset moves by its length.
read_loop-window :
    (bs : List Block) (k total size offset : ℕ) (out : List Byte)
    → IsLaid bs total
    → offset / block_size ≤ k
    → block_size * (k + length bs) ≤ 2 ^ 31
    → read_loop bs size offset out
      ≡ got
          (out ++ window bs (offset % block_size) (size - length out))
          (offset + length (window bs (offset % block_size) (size - length out)))
unfolding read_loop
read_loop-window [] k total size offset out l at small =
    let none_left = window-nil (offset % block_size) (size - length out) in
    got_cong (sym (append-nil out) ∙ ap (λ t. out ++ t) (sym none_left))
      (omega (arith, ap length none_left))
read_loop-window (b ∷ bs) k total size offset out l at small =
    elim (Bool-cases (ltb (length out) size)) [
      | inr enough ↦
          let nothing : window (b ∷ bs) start want ≡ [] =
            take_cong {n = 0} (drop start (bytes (b ∷ bs))) (omega (arith, ltb→le _ _ enough)) in
          rw enough (
            got_cong (sym (append-nil out) ∙ ap (λ t. out ++ t) (sym nothing))
              (omega (arith, ap length nothing)))
      | inl more ↦
          rw (more, block_offset-ok offset (omega arith))
            (elim (Bool-cases (leb b.occupied start)) [
              | inl past ↦
                  let nothing : window (b ∷ bs) start want ≡ [] =
                    ap (take want) (
                      drop-all start (bytes (b ∷ bs))
                        (omega (arith, leb→le _ _ past, length-bytes (b ∷ bs) total l)))
                    ∙ take-all want [] (omega arith) in
                  rw past (
                    got_cong (sym (append-nil out) ∙ ap (λ t. out ++ t) (sym nothing))
                      (omega (arith, ap length nothing)))
              | inr inside ↦
                  let lt : start < b.occupied = leb→lt _ _ inside in
                  rw
                    (
                      inside,
                      read_memory-ok b.memory start count (omega (arith, l.0.sized, l.0.within)),
                    )
                    (read_loop-window bs (suc k) (total - block_size) size (offset + count)
                        (out ++ part) l.3 (omega (arith, l.0.within)) (omega arith)
                      ∙ step lt)
            ])
    ]
  where
    start : ℕ
    start = offset % block_size

    want : ℕ
    want = size - length out

    count : ℕ
    count = min (b.occupied - start) want

    part : List Byte
    part = take count (drop start b.memory)

    rest : List Byte
    rest = window bs ((offset + count) % block_size) (size - length (out ++ part))

    length-part : start < b.occupied → length part ≡ count
    length-part lt = omega (
      arith,
      length-take count (drop start b.memory),
      length-drop start b.memory,
      l.0.sized,
      l.0.within,
    )

    whole : start < b.occupied → window (b ∷ bs) start want ≡ part ++ rest
    whole lt =
        window-cons b bs total offset want l lt
        ∙ ap (λ t. part ++ t)
            (take_cong {m = want - count} {n = size - length (out ++ part)}
              (drop ((offset + count) % block_size) (bytes bs))
              (omega (arith, length-part lt, length-append out part)))

    step :
        start < b.occupied
        → got ((out ++ part) ++ rest) (offset + count + length rest)
          ≡ got (out ++ window (b ∷ bs) start want) (offset + length (window (b ∷ bs) start want))
    step lt =
        got_cong (append_assoc out part rest ∙ ap (λ t. out ++ t) (sym (whole lt)))
          (omega (arith, ap length (whole lt), length-append part rest, length-part lt))

module _ {n : ℕ} (fs : Ufs) (fd : ℤ) (i : ℕ) (desc : FileDesc) (f : File) (size : ℕ)
    (found : Found n fs fd i desc f) (laid : IsLaid f.blocks f.size) (inside : desc.offset ≤ f.size)
    (small : block_size * n ≤ 2 ^ 31) where
  read_blocks-window :
      read_blocks desc f size
      ≡ got
          (window f.blocks desc.offset size)
          (desc.offset + length (window f.blocks desc.offset size))
  unfolding read_blocks
  read_blocks-window =
      rw
        (
          skip_blocks-drop (desc.offset / block_size) f.blocks (omega (arith, found.inside)),
          read_blocks,
        )
        (elim (Bool-cases (leb f.size desc.offset)) [
          | inl end ↦
              let nothing : window f.blocks desc.offset size ≡ [] =
                ap (take size) (
                  drop-all desc.offset (bytes f.blocks)
                    (omega (arith, leb→le _ _ end, length-bytes f.blocks f.size laid)))
                ∙ take-all size [] (omega arith) in
              rw end (got_cong (sym nothing) (omega (arith, ap length nothing)))
          | inr more ↦ rw more (
              read_loop-window (drop k f.blocks) k (f.size - block_size * k) size desc.offset []
                (IsLaid-drop k f.blocks f.size laid (omega arith)) (omega arith)
                (omega (arith, length-drop k f.blocks, found.inside, found.sound.short))
              ∙ got_cong whole (ap (λ t. desc.offset + length t) whole))
        ])
    where
      k : ℕ
      k = desc.offset / block_size

      whole :
          window (drop k f.blocks) (desc.offset % block_size) (size - 0)
          ≡ window f.blocks desc.offset size
      whole =
          take_cong {m = size - 0} {n = size}
            (drop (desc.offset % block_size) (bytes (drop k f.blocks))) (omega arith)
          ∙ window-drop f.blocks f.size desc.offset size laid inside

  -- A read through a descriptor that may read, of a file whose blocks are full but for the last,
  -- returns the bytes from the offset on, `size` of them or as many as there are, and moves the
  -- offset by that many. Nothing else changes.
  pub ufs_read-window :
      (not (has_flag desc.open_flags ufs_read_only)
          && not (has_flag desc.open_flags ufs_read_write))
        ≡ Bool.false
      → let out = window f.blocks desc.offset size in
        ufs_read fd size fs
        ≡ ok (
          pos (length out),
          out,
          record fs {
            file_descriptors =
                set fs.file_descriptors i
                  (some (record desc { offset = desc.offset + length out }));
          },
        )
  unfolding ufs_read
  ufs_read-window readable = rw (found.found, readable, found.live, read_blocks-window)
