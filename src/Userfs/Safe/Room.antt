-- ===== src/Userfs/Safe/Room.antt =====
-- The table of descriptors that `ufs_open` makes, and makes longer.
use iu_sp.Base.{
  total, ℕ, zero, suc, ◌+◌, ◌*◌, ◌<◌, ◌≡◌, ◌↔◌, refl, sym, ◌∙◌, inl, inr, Option, none, some, [],
  ◌∷◌, ◌++◌, arith, leb, length, get_elem?, replicate, Bool-cases, length-append, length-replicate,
  subst, leb→le,
}
use iu_sp.Userfs.State.{FileDesc, Ufs}
use iu_sp.Userfs.Open.{init_descriptors, grow_descriptors}
use iu_sp.Userfs.Table.{Table, is_open, total-append_replicate}
use iu_sp.Userfs.Invariant.{Linked, IsValid}
use iu_sp.Userfs.Linking.{Linked-append}

-- the array with `k` more places, all NULL
abbrev lengthened : Ufs → ℕ → Ufs
lengthened fs k = record fs {
  file_descriptors = fs.file_descriptors ++ replicate k none;
  capacity = fs.capacity + k;
}

lengthened-IsValid : {n : ℕ} (fs : Ufs) (k : ℕ) → IsValid n fs → IsValid n (lengthened fs k)
lengthened-IsValid fs k v = record {
  linked = Linked-append fs.file_list fs.file_descriptors v.linked k;
  used = v.used ∙ sym (total-append_replicate is_open fs.file_descriptors k refl);
  capacity = omega (
    arith,
    v.capacity,
    length-append fs.file_descriptors (replicate k none),
    length-replicate {0} {A = Option FileDesc} k none,
  );
}

pub grow_descriptors-IsValid : {n : ℕ} (fs : Ufs) → IsValid n fs → IsValid n (grow_descriptors fs)
unfolding grow_descriptors
grow_descriptors-IsValid {n} fs v =
    let double : fs.capacity + fs.capacity ≡ fs.capacity * 2 = omega arith in
    subst (λ c. IsValid n (record (lengthened fs fs.capacity) { capacity = c })) double
      (lengthened-IsValid fs fs.capacity v)

init-empty :
    {n : ℕ} (fs : Ufs) (ds : Table)
    → IsValid n fs
    → fs.file_descriptors ≡ ds
    → fs.capacity ≡ 0
    → length ds ≡ 0
    → IsValid n (record fs { file_descriptors = replicate 10 none; capacity = 10; used = 0 })
unfolding total
init-empty {n} fs [] v e none_yet h =
    let w = lengthened-IsValid fs 10 v in
    record {
      linked = subst (λ ds. Linked n fs.file_list (ds ++ replicate 10 none)) e w.linked;
      used = refl;
      capacity = refl;
    }
init-empty fs (d ∷ ds) v e none_yet h = absurd (omega arith)

pub init_descriptors-IsValid : {n : ℕ} (fs : Ufs) → IsValid n fs → IsValid n (init_descriptors fs)
unfolding init_descriptors
init_descriptors-IsValid fs v = elim (Bool-cases (leb fs.capacity 0)) [
  | inl first ↦ rw first (
      let zero : fs.capacity ≡ 0 = omega (arith, leb→le _ _ first) in
      init-empty fs fs.file_descriptors v refl zero (omega (arith, v.capacity)))
  | inr later ↦ rw later v
]

pub init_descriptors-capacity : (fs : Ufs) → 0 < (init_descriptors fs).capacity
unfolding init_descriptors
init_descriptors-capacity fs = ground arith

pub init_descriptors-files : (fs : Ufs) → (init_descriptors fs).file_list ≡ fs.file_list
unfolding init_descriptors
init_descriptors-files fs = ground arith

-- the same open descriptors, perhaps in a longer array
abbrev pub Extends : Table → Table → Type 0
Extends ds es =
    (i : ℕ) (d : FileDesc) → (get_elem? es i ≡ some (some d)) ↔ (get_elem? ds i ≡ some (some d))

pub Extends-append : (ds : Table) (k : ℕ) → Extends ds (ds ++ replicate k none)
Extends-append [] zero i d = (λ e. e, λ e. e)
Extends-append [] (suc k) zero d = (λ e. absurd (ground arith), λ e. absurd (ground arith))
Extends-append [] (suc k) (suc i) d =
    (λ e. (Extends-append [] k i d).0 e, λ e. absurd (ground arith))
Extends-append (x ∷ ds) k zero d = (λ e. e, λ e. e)
Extends-append (x ∷ ds) k (suc i) d = Extends-append ds k i d

init-empty_Extends :
    (fs : Ufs) → length fs.file_descriptors ≡ 0 → Extends fs.file_descriptors (replicate 10 none)
init-empty_Extends fs h = go fs.file_descriptors h
  where
    go : (ds : Table) → length ds ≡ 0 → Extends ds (replicate 10 none)
    go [] e = Extends-append [] 10
    go (d ∷ ds) e = absurd (omega arith)

pub init_descriptors-Extends :
    {n : ℕ} (fs : Ufs)
    → IsValid n fs
    → Extends fs.file_descriptors (init_descriptors fs).file_descriptors
unfolding init_descriptors
init_descriptors-Extends fs v = elim (Bool-cases (leb fs.capacity 0)) [
  | inl first ↦ rw first (init-empty_Extends fs (omega (arith, v.capacity, leb→le _ _ first)))
  | inr later ↦ rw later (λ i d. (λ e. e, λ e. e))
]
