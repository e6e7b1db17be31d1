-- ===== src/Userfs/Safe/Close.antt =====
-- `ufs_close`, `ufs_delete` and `ufs_destroy` keep the invariant and have no fault.
use iu_sp.Base.{total-set, ℕ, inl, inr, none, arith, Returns, returns, Option-cases, length-set}
use iu_sp.Int.{ℤ}
use iu_sp.Userfs.State.{no_file, Name, Ufs, find_name}
use iu_sp.Userfs.Close.{ufs_close, ufs_delete, ufs_destroy}
use iu_sp.Userfs.Files.{find_name-Named}
use iu_sp.Userfs.Table.{is_open}
use iu_sp.Userfs.Invariant.{IsValid, initial-IsValid}
use iu_sp.Userfs.References.{Linked-release, Linked-delete}
use iu_sp.Userfs.Safe.Desc.{find_desc-cases, IsValid-error}

-- `ufs_close` keeps the invariant and has no fault.
pub ufs_close-IsValid :
    {n : ℕ} (fs : Ufs) (fd : ℤ) → IsValid n fs → Returns (λ r. IsValid n r.1) (ufs_close fd fs)
unfolding ufs_close
ufs_close-IsValid fs fd v = elim (find_desc-cases fs fd v) [
  | inl missing ↦ rw missing (returns (IsValid-error no_file v))
  | inr (i, desc, f, found) ↦
      rw (found.found, found.live)
        (returns (record {
          linked =
              Linked-release fs.file_list fs.file_descriptors v.linked i desc f found.slot
                found.live;
          used = omega (arith, v.used, total-set is_open fs.file_descriptors i none found.slot);
          capacity = omega (arith, v.capacity, length-set fs.file_descriptors i none);
        }))
]

-- `ufs_delete` keeps the invariant and has no fault.
pub ufs_delete-IsValid :
    {n : ℕ} (fs : Ufs) (name : Name)
    → IsValid n fs
    → Returns (λ r. IsValid n r.1) (ufs_delete name fs)
unfolding ufs_delete
ufs_delete-IsValid fs name v = elim (Option-cases (find_name fs.file_list name)) [
  | inl missing ↦ rw (missing, ufs_delete) (returns (IsValid-error no_file v))
  | inr (p, e) ↦
      let (f, named) = find_name-Named fs.file_list name p v.linked.distinct e in
      rw (e, ufs_delete, named.live)
        (returns (record {
          linked = Linked-delete fs.file_list fs.file_descriptors v.linked p f named.live;
          used = v.used;
          capacity = v.capacity;
        }))
]

-- `ufs_destroy` leads back to the state before the first call.
pub ufs_destroy-IsValid : (fs : Ufs) → IsValid 0 (ufs_destroy fs)
unfolding ufs_destroy
ufs_destroy-IsValid fs = IsValid-error fs.error_code initial-IsValid
