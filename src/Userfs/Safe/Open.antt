-- ===== src/Userfs/Safe/Open.antt =====
-- `ufs_open` keeps the invariant and has no fault.
use iu_sp.Base.{
  total-set, ℕ, ◌+◌, ◌≤◌, ◌<◌, ◌≡◌, ◌≢◌, refl, sym, ◌∙◌, ap, true, false, inl, inr, Option, none,
  some, List, ◌∷◌, ◌++◌, arith, ltb, if◌then◌else◌, length, get_elem?, set, replicate, ok, Returns,
  returns, Returns-if, Returns-map, Option-cases, length-set, ltb→lt, ltb→le, subst,
  get_elem?-append,
}
use iu_sp.Int.{ℤ, pos, negsuc}
use iu_sp.Userfs.State.{
  no_file, not_implemented, ufs_create, has_flag, Ptr, Name, File, FileDesc, Ufs, find_file,
  store_file, find_name,
}
use iu_sp.Userfs.Open.{
  new_file, effective_flags, first_free, init_descriptors, grow_descriptors, fill_descriptor,
  open_descriptor, ufs_open,
}
use iu_sp.Userfs.Files.{find_name-Named}
use iu_sp.Userfs.Table.{
  Table, is_open, first_free-some, first_free-none, is_open-le-length, get_elem?-length, full-table,
}
use iu_sp.Userfs.Invariant.{IsValid}
use iu_sp.Userfs.Linking.{Linked-create}
use iu_sp.Userfs.References.{Linked-attach}
use iu_sp.Userfs.Safe.Desc.{IsValid-error}
use iu_sp.Userfs.Safe.Room.{
  grow_descriptors-IsValid, init_descriptors-IsValid, init_descriptors-capacity,
  init_descriptors-files, Extends, Extends-append, init_descriptors-Extends,
}

-- the address of a new file is not in use
abbrev pub IsFresh : (List (Ptr × File) → Ptr) → Type 0
IsFresh malloc = (fs : List (Ptr × File)) → find_file fs (malloc fs) ≡ none

-- A descriptor for the file at `p` in the array `ds`, made longer where it was full: at a place that
-- was NULL, the first such place. The other descriptors stay, and of the `files` only that at `p`
-- changes: it is `f` with one reference more.
pub record Opened (n : ℕ) (ds : Table) (files : List (Ptr × File)) (p : Ptr) (f : File) (flags : ℕ)
    (r : ℤ × Ufs) : Type 0 where
  pub valid : IsValid n r.1
  pub counted : r.1.file_list ≡ store_file files p (record f { refs = f.refs + 1 })
  pub place : ℕ
  pub number : r.0 ≡ pos (place + 1)
  pub table : Table
  pub longer : Extends ds table
  pub free : get_elem? table place ≡ some none
  pub first : (i : ℕ) → i < place → get_elem? table i ≢ some none
  pub filled :
      r.1.file_descriptors
      ≡ set table place (some (record { file = p; open_flags = flags; offset = 0 }))

module _ {n : ℕ} (ds : Table) (files : List (Ptr × File)) (fs : Ufs) (p : Ptr) (flags : ℕ)
    (f : File) (v : IsValid n fs) (live : find_file fs.file_list p ≡ some f)
    (ext : Extends ds fs.file_descriptors) (same : fs.file_list ≡ files) where
  fill_descriptor-Opened :
      (i : ℕ)
      → get_elem? fs.file_descriptors i ≡ some none
      → ((j : ℕ) → j < i → get_elem? fs.file_descriptors j ≢ some none)
      → Returns (Opened n ds files p f flags) (fill_descriptor i p flags fs)
  unfolding fill_descriptor
  fill_descriptor-Opened i e first = rw live (
      returns (record {
        valid = record {
          linked = Linked-attach fs.file_list fs.file_descriptors v.linked i p f flags e live;
          used = omega (arith, v.used, total-set is_open fs.file_descriptors i (some d) e);
          capacity = omega (arith, v.capacity, length-set fs.file_descriptors i (some d));
        };
        counted = ap (λ l. store_file l p (record f { refs = f.refs + 1 })) same;
        place = i;
        number = refl;
        table = fs.file_descriptors;
        longer = ext;
        free = e;
        first = first;
        filled = refl;
      }))
    where
      d : FileDesc
      d = record { file = p; open_flags = flags; offset = 0 }

  found_place :
      (o : Option ℕ)
      → first_free fs.file_descriptors 0 ≡ o
      → fs.used < fs.capacity
      → Returns (Opened n ds files p f flags) (elim o [
        | none ↦ ok (negsuc 0, record fs { error_code = not_implemented })
        | some i ↦ fill_descriptor i p flags fs
      ])
  found_place none e room =
      absurd (omega (arith, first_free-none fs.file_descriptors 0 e, v.used, v.capacity))
  found_place (some j) e room =
      let (k, at, free, before) = first_free-some fs.file_descriptors 0 j e in
      let here : k ≡ j = omega arith in
      fill_descriptor-Opened j (subst (λ m. get_elem? fs.file_descriptors m ≡ some none) here free)
        (λ m h. before m (omega arith))

module _ {n : ℕ} (ds : Table) (files : List (Ptr × File)) (fs : Ufs) (p : Ptr) (flags : ℕ)
    (f : File) (v : IsValid n fs) (live : find_file fs.file_list p ≡ some f)
    (pos_cap : 0 < fs.capacity) (ext : Extends ds fs.file_descriptors)
    (same : fs.file_list ≡ files) where
  new_place :
      fs.capacity ≤ fs.used
      → Returns
          (Opened n ds files p f flags)
          (fill_descriptor fs.used p flags (grow_descriptors fs))
  unfolding grow_descriptors
  new_place full =
      let old = fs.file_descriptors in
      let end : fs.used ≡ length old = omega (arith, v.used, v.capacity, is_open-le-length old) in
      fill_descriptor-Opened ds files (grow_descriptors fs) p flags f
        (grow_descriptors-IsValid fs v) live
        (λ i d. (λ e. (ext i d).0 ((more i d).0 e), λ e. (more i d).1 ((ext i d).1 e))) same fs.used
        (rw end (get_elem?-length old fs.capacity pos_cap))
        λ j lt e.
          full-table old j (omega (arith, v.used))
            (sym (get_elem?-append old (replicate fs.capacity none) j (omega arith)) ∙ e)
    where
      more : Extends fs.file_descriptors (fs.file_descriptors ++ replicate fs.capacity none)
      more = Extends-append fs.file_descriptors fs.capacity

  attached : Returns (Opened n ds files p f flags) (
      if ltb fs.used fs.capacity
      then elim (first_free fs.file_descriptors 0) [
        | none ↦ ok (negsuc 0, record fs { error_code = not_implemented })
        | some i ↦ fill_descriptor i p flags fs
      ]
      else fill_descriptor fs.used p flags (grow_descriptors fs))
  attached =
      Returns-if (ltb fs.used fs.capacity)
        (λ room.
          found_place ds files fs p flags f v live ext same (first_free fs.file_descriptors 0) refl
            (ltb→lt _ _ room))
        λ full. new_place (ltb→le _ _ full)

open_descriptor-Opened :
    {n : ℕ} (fs : Ufs) (p : Ptr) (flags : ℕ) (f : File)
    → IsValid n fs
    → find_file fs.file_list p ≡ some f
    → Returns (Opened n fs.file_descriptors fs.file_list p f flags) (open_descriptor p flags fs)
unfolding open_descriptor
open_descriptor-Opened fs p flags f v live =
    attached fs.file_descriptors fs.file_list (init_descriptors fs) p flags f
      (init_descriptors-IsValid fs v) (rw (init_descriptors-files fs) live)
      (init_descriptors-capacity fs) (init_descriptors-Extends fs v) (init_descriptors-files fs)

-- What `ufs_open` does: it fails for want of a file and of UFS_CREATE, or it returns a descriptor of the
-- file that has the name, or, with UFS_CREATE, of a new file of that name.
pub data OpenResult (n : ℕ) (name : Name) (flags : ℕ) (fs : Ufs) (r : ℤ × Ufs) : Type 0 where
  missing :
      find_name fs.file_list name ≡ none
      → has_flag (effective_flags flags) ufs_create ≡ false
      → r ≡ (negsuc 0, record fs { error_code = no_file })
      → OpenResult n name flags fs r
  existing :
      (p : Ptr) (f : File)
      → find_name fs.file_list name ≡ some p
      → find_file fs.file_list p ≡ some f
      → Opened n fs.file_descriptors fs.file_list p f (effective_flags flags) r
      → OpenResult n name flags fs r
  created :
      (p : Ptr)
      → find_name fs.file_list name ≡ none
      → has_flag (effective_flags flags) ufs_create ≡ true
      → find_file fs.file_list p ≡ none
      → Opened n fs.file_descriptors
          ((p, new_file name) ∷ fs.file_list)
          p
          (new_file name)
          (effective_flags flags)
          r
      → OpenResult n name flags fs r

created_file :
    {n : ℕ} (fs : Ufs) (p : Ptr) (name : Name)
    → IsValid n fs
    → find_file fs.file_list p ≡ none
    → find_name fs.file_list name ≡ none
    → IsValid n (record fs { file_list = (p, new_file name) ∷ fs.file_list })
created_file fs p name v fresh new = record {
  linked = Linked-create fs.file_list fs.file_descriptors v.linked p name fresh new;
  used = v.used;
  capacity = v.capacity;
}

-- In a valid state and where malloc gives fresh addresses, `ufs_open` returns without a fault and
-- keeps the invariant: it returns a descriptor of the file that has the name; or, where none has it and
-- with UFS_CREATE, of a new file of that name; or, without UFS_CREATE, it fails with NO_FILE. Of the
-- files only the opened one changes, by one reference more.
pub ufs_open-Returns :
    {n : ℕ} (malloc : List (Ptr × File) → Ptr) (fs : Ufs) (name : Name) (flags : ℕ)
    → IsFresh malloc
    → IsValid n fs
    → Returns (λ r. IsValid n r.1 × OpenResult n name flags fs r) (ufs_open malloc name flags fs)
unfolding ufs_open find_file
ufs_open-Returns {n} malloc fs name flags fresh v =
    elim (Option-cases (find_name fs.file_list name)) [
      | inl none_named ↦
          rw (none_named, ufs_open)
            (Returns-if (has_flag (effective_flags flags) ufs_create)
              (λ create.
                Returns-map
                  (open_descriptor-Opened
                    (record fs { file_list = (p, new_file name) ∷ fs.file_list }) p
                    (effective_flags flags) (new_file name)
                    (created_file fs p name v (fresh fs.file_list) none_named) (ground arith))
                  λ r o. (o.valid, created p none_named create (fresh fs.file_list) o))
              λ no_create. returns (IsValid-error no_file v, missing none_named no_create refl))
      | inr (q, e) ↦
          let (f, named) = find_name-Named fs.file_list name q v.linked.distinct e in
          rw (e, ufs_open)
            (Returns-map (open_descriptor-Opened fs q (effective_flags flags) f v named.live)
              λ r o. (o.valid, existing q f e named.live o))
    ]
  where
    p : Ptr
    p = malloc fs.file_list
