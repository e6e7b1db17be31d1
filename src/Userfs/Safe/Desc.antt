-- ===== src/Userfs/Safe/Desc.antt =====
-- What the start of a call finds in a valid state.
use iu_sp.Base.{
  total-set, ℕ, zero, suc, true, false, ◌≤◌, ◌≡◌, ◌⊎◌, refl, inl, inr, Option, none, some, leb,
  arith, get_elem?, ok, get_elem?-some, Bool-cases, List, set, length-set,
}
use iu_sp.Int.{ℤ, pos, negsuc}
use iu_sp.Userfs.State.{FileDesc, File, Ptr, Ufs, ErrorCode, find_file, desc_at, find_desc}
use iu_sp.Userfs.Table.{is_open}
use iu_sp.Userfs.Invariant.{reach, IsFile, Linked, IsValid}

-- `fd` leads to the open descriptor `desc` at `i`, and that to `file`
pub record Found (n : ℕ) (fs : Ufs) (fd : ℤ) (i : ℕ) (desc : FileDesc) (file : File) : Type 0 where
  pub found : find_desc fd fs ≡ ok (some (i, desc))
  pub number : fd ≡ pos (suc i)
  pub slot : get_elem? fs.file_descriptors i ≡ some (some desc)
  pub live : find_file fs.file_list desc.file ≡ some file
  pub inside : desc.offset ≤ reach file
  pub sound : IsFile n file

abbrev pub Lookup : ℕ → Ufs → ℤ → Type 0
Lookup n fs fd =
    (find_desc fd fs ≡ ok none)
    ⊎ ((i : ℕ) × (desc : FileDesc) × (file : File) × Found n fs fd i desc file)

at_index :
    {n : ℕ} (fs : Ufs)
    → IsValid n fs
    → (i : ℕ) → (leb fs.capacity i ≡ true) ⊎ (leb fs.capacity i ≡ false)
    → Lookup n fs (pos (suc i))
unfolding find_desc desc_at
at_index {n} fs v i (inl out) = inl (rw out)
at_index {n} fs v i (inr within) =
    let (d, e) = get_elem?-some fs.file_descriptors i (ground (arith, v.capacity)) in present d e
  where
    present :
        (d : Option FileDesc) → get_elem? fs.file_descriptors i ≡ some d → Lookup n fs (pos (suc i))
    present none e = inl (rw (within, e))
    present (some desc) e =
        let o = v.linked.opened i desc e in
        inr (
          i,
          desc,
          o.target,
          record {
            found = rw (within, e);
            number = refl;
            slot = e;
            live = o.live;
            inside = o.inside;
            sound = v.linked.files desc.file o.target o.live;
          },
        )

-- In a valid state the look-up ends, with an open descriptor of a live file or without one.
pub find_desc-cases : {n : ℕ} (fs : Ufs) (fd : ℤ) → IsValid n fs → Lookup n fs fd
unfolding find_desc
find_desc-cases fs (pos zero) v = inl refl
find_desc-cases fs (pos (suc i)) v = at_index fs v i (Bool-cases (leb fs.capacity i))
find_desc-cases fs (negsuc n) v = inl refl

-- The error code is no part of the invariant.
pub IsValid-error :
    {n : ℕ} {fs : Ufs} (e : ErrorCode) → IsValid n fs → IsValid n (record fs { error_code = e })
IsValid-error e v = record { linked = v.linked; used = v.used; capacity = v.capacity }

-- A moved descriptor changes neither count of the array.
pub IsValid-set :
    {m n : ℕ} (fs : Ufs) (files : List (Ptr × File)) (i : ℕ) {d : FileDesc} (c : FileDesc)
    → IsValid m fs
    → get_elem? fs.file_descriptors i ≡ some (some d)
    → Linked n files (set fs.file_descriptors i (some c))
    → IsValid n
        (record fs { file_list = files; file_descriptors = set fs.file_descriptors i (some c) })
IsValid-set fs files i c v e l = record {
  linked = l;
  used = omega (arith, v.used, total-set is_open fs.file_descriptors i (some c) e);
  capacity = omega (arith, v.capacity, length-set fs.file_descriptors i (some c));
}
