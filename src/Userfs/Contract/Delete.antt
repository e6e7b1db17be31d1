-- ===== src/Userfs/Contract/Delete.antt =====
-- Deleted files: what `ufs_delete` and the last `ufs_close` do.
use iu_sp.Base.{
  total, le-total, ℕ, ◌-◌, ◌<◌, ◌≡◌, ◌≢◌, refl, sym, ◌∙◌, true, ◌&&◌, inl, inr, Option, none, some,
  List, arith, leb, ◌==◌, if◌then◌else◌, Returns, returns, set, get_elem?, Bool-cases,
}
use native.Mathlib.Decide.{ℕ_discrete}
use iu_sp.Int.{ℤ, pos}
use iu_sp.Userfs.State.{
  Ptr, Name, File, FileDesc, Ufs, find_file, store_file, remove_file, find_name,
}
use iu_sp.Userfs.Close.{release_file, ufs_close, ufs_delete}
use iu_sp.Userfs.Files.{
  Distinct, Named, find-store, find-remove, find_name-Named, Distinct-store, Distinct-remove,
}
use iu_sp.Userfs.Table.{leads_to}
use iu_sp.Userfs.Invariant.{IsValid}
use iu_sp.Userfs.Safe.Desc.{Found}

-- the file list after `ufs_delete` of the file at `p`
abbrev deleted : List (Ptr × File) → Ptr → File → List (Ptr × File)
deleted fs p f =
    if leb f.refs 0 then remove_file fs p else store_file fs p (record f { is_ghost = true })

module _ (fs : List (Ptr × File)) (p : Ptr) (f : File) (distinct : Distinct fs)
    (live : find_file fs p ≡ some f) where
  find-deleted :
      (q : Ptr)
      → find_file (deleted fs p f) q ≡ (
          if p == q
          then (if leb f.refs 0 then none else some (record f { is_ghost = true }))
          else find_file fs q)
  find-deleted q =
      ground
        (arith, find-remove fs p q distinct, find-store fs p q (record f { is_ghost = true }) live)

  Distinct-deleted : Distinct (deleted fs p f)
  Distinct-deleted = elim (Bool-cases (leb f.refs 0)) [
    | inl gone ↦ rw gone (Distinct-remove fs p distinct)
    | inr stays ↦ rw stays (Distinct-store fs p (record f { is_ghost = true }) distinct)
  ]

-- What a deletion leaves: no file of the name, the descriptors as they were, and for each of them
-- the contents of its file; a file that no descriptor has open is gone.
pub record Deleted (fs : Ufs) (name : Name) (p : Ptr) (gs : Ufs) : Type 0 where
  pub unnamed : find_name gs.file_list name ≡ none
  pub descriptors : gs.file_descriptors ≡ fs.file_descriptors
  pub contents :
      (i : ℕ) (d : FileDesc) (f : File)
      → get_elem? fs.file_descriptors i ≡ some (some d)
      → find_file fs.file_list d.file ≡ some f
      → (g : File) × (find_file gs.file_list d.file ≡ some g)
        × (g.blocks ≡ f.blocks)
        × (g.size ≡ f.size)
  pub others : (q : Ptr) → p ≢ q → find_file gs.file_list q ≡ find_file fs.file_list q
  pub unused : total (leads_to p) fs.file_descriptors ≡ 0 → find_file gs.file_list p ≡ none

module _ {n : ℕ} (fs : Ufs) (name : Name) (p : Ptr) (v : IsValid n fs) where
  -- nothing has the name once the file that had it is deleted
  none-Named :
      (f : File)
      → Named fs.file_list name p f
      → (o : Option Ptr) → find_name (deleted fs.file_list p f) name ≡ o
      → o ≡ none
  none-Named f named none e = refl
  none-Named f named (some q) e =
      let distinct = Distinct-deleted fs.file_list p f v.linked.distinct named.live in
      let (g, m) = find_name-Named (deleted fs.file_list p f) name q distinct e in
      let at = find-deleted fs.file_list p f v.linked.distinct named.live q in
      absurd (clash q g m at)
    where
      clash :
          (q : Ptr) (g : File)
          → Named (deleted fs.file_list p f) name q g
          → find_file (deleted fs.file_list p f) q ≡ (
              if p == q
              then (if leb f.refs 0 then none else some (record f { is_ghost = true }))
              else find_file fs.file_list q)
          → ⊥
      clash q g m at = elim (ℕ_discrete p q) [
        | yes same ↦ ground (arith, m.live, m.visible)
        | no other ↦ other (
            v.linked.unique p q f g
              (record { live = named.live; visible = named.visible; called = refl })
              (record {
                live = ground (arith, m.live);
                visible = m.visible;
                called = m.called ∙ sym named.called;
              }))
      ]

  -- `ufs_delete` of a file that the name finds: it returns 0, the name is free, and every descriptor
  -- still leads to the contents that it had; a file that no descriptor has open is gone at once.
  pub ufs_delete-Deleted :
      find_name fs.file_list name ≡ some p
      → Returns (λ (m, gs). (m ≡ pos 0) × Deleted fs name p gs) (ufs_delete name fs)
  unfolding ufs_delete
  ufs_delete-Deleted e =
      let (f, named) = find_name-Named fs.file_list name p v.linked.distinct e in
      let at = find-deleted fs.file_list p f v.linked.distinct named.live in
      rw (e, ufs_delete, named.live)
        (returns (
          refl,
          record {
            unnamed = none-Named f named (find_name (deleted fs.file_list p f) name) refl;
            descriptors = refl;
            contents = λ i d g slot live. elim (ℕ_discrete p d.file) [
              | yes same ↦
                  let one : 0 < total (leads_to p) fs.file_descriptors =
                    ground (arith, le-total (leads_to p) fs.file_descriptors i slot) in
                  let refs = v.linked.counted p f named.live in
                  (
                    record f { is_ghost = true },
                    ground (arith, at d.file, one, refs),
                    ground (arith, named.live, live),
                    ground (arith, named.live, live),
                  )
              | no other ↦ (g, ground (arith, at d.file), refl, refl)
            ];
            others = λ q ne. ground (arith, at q);
            unused = λ zero_refs. ground (arith, at p, v.linked.counted p f named.live);
          },
        ))

-- `ufs_close` of an open descriptor: it returns 0 and frees the descriptor's place. Its file goes
-- away if it was deleted before and no other descriptor leads to it, and else loses one reference;
-- the other files and descriptors stay.
pub ufs_close-released :
    {n : ℕ} (fs : Ufs) (fd : ℤ) (i : ℕ) (desc : FileDesc) (f : File)
    → IsValid n fs
    → Found n fs fd i desc f
    → Returns
        (λ (m, gs).
          (m ≡ pos 0)
          × (gs.file_descriptors ≡ set fs.file_descriptors i none)
          × (find_file gs.file_list desc.file ≡ (
              if f.is_ghost && leb (total (leads_to desc.file) fs.file_descriptors) 1
              then none
              else some (record f { refs = f.refs - 1 })))
          × ((q : Ptr) → desc.file ≢ q → find_file gs.file_list q ≡ find_file fs.file_list q))
        (ufs_close fd fs)
unfolding ufs_close release_file
ufs_close-released fs fd i desc f v found =
    let refs = v.linked.counted desc.file f found.live in
    let gone = λ (q : Ptr). find-remove fs.file_list desc.file q v.linked.distinct in
    let kept = λ (q : Ptr).
      find-store fs.file_list desc.file q (record f { refs = f.refs - 1 }) found.live in
    rw (found.found, found.live)
      (returns (
        refl,
        refl,
        ground (arith, refs, gone desc.file, kept desc.file),
        λ q ne. ground (arith, gone q, kept q),
      ))
