-- ===== src/Userfs/Names/Calls.antt =====
-- What the calls of homework-03/userfs.c do to the names.
use iu_sp.Base.{
  ℕ, ◌+◌, ◌-◌, ◌/◌, ◌%◌, ◌^◌, max, set, ◌≡◌, refl, ap, ◌∙◌, Bool, true, false, not, ◌&&◌, Option,
  none, some, inl, inr, List, arith, leb, ltb, length, ◌==◌, if◌then◌else◌, Bool-cases, Run, ok,
  or_fault, ◌>>=◌, WhenOk, when_ok, when_fault, WhenOk-bind, WhenOk-any,
}
use iu_sp.Int.{ℤ}
use iu_sp.Userfs.State.{
  Ptr, Name, File, FileDesc, Ufs, find_file, store_file, find_name, find_desc, has_flag,
  not_implemented, no_file, no_permission, no_mem, fail, return, ufs_write_only, ufs_read_write,
}
use iu_sp.Userfs.Block.{block_size, max_file_size}
use iu_sp.Userfs.Open.{
  first_free, init_descriptors, grow_descriptors, fill_descriptor, open_descriptor,
}
use iu_sp.Userfs.Write.{walk, block_ptr, write_loop, write_file, ufs_write}
use iu_sp.Userfs.Close.{release_file, ufs_close}
use iu_sp.Userfs.Safe.Room.{init_descriptors-files}
use iu_sp.Userfs.Names.{shows, find_name-store, find_name-remove}

-- every name finds what it found before
abbrev pub SameNames : Ufs → Ufs → Type 0
SameNames fs gs = (name : Name) → find_name gs.file_list name ≡ find_name fs.file_list name

pub WhenOk-if {ℓ κ} :
    {A : Type ℓ} {P : A → Type κ} {m k : Run A} (test : Bool)
    → (test ≡ true → WhenOk P m)
    → (test ≡ false → WhenOk P k)
    → WhenOk P (if test then m else k)
WhenOk-if true h k = h refl
WhenOk-if false h k = k refl

pub WhenOk-or_fault {ℓ} : {A : Type ℓ} (o : Option A) → WhenOk (λ a. o ≡ some a) (or_fault o)
WhenOk-or_fault none = when_fault
WhenOk-or_fault (some a) = when_ok refl

-- a file that keeps its name and its ghost flag is stored
pub stored-SameNames :
    (fs : Ufs) (p : Ptr) (f g : File)
    → find_file fs.file_list p ≡ some f
    → ((name : Name) → shows g name ≡ shows f name)
    → (name : Name) → find_name (store_file fs.file_list p g) name ≡ find_name fs.file_list name
stored-SameNames fs p f g e same name = find_name-store p f name g fs.file_list e (same name)

pub open_descriptor-SameNames :
    (p : Ptr) (flags : ℕ) (fs : Ufs) → WhenOk (λ r. SameNames fs r.1) (open_descriptor p flags fs)
unfolding open_descriptor grow_descriptors fill_descriptor
open_descriptor-SameNames p flags fs =
    WhenOk-if (ltb (init_descriptors fs).used (init_descriptors fs).capacity)
      (λ room. place (first_free (init_descriptors fs).file_descriptors 0))
      λ full.
        filled (init_descriptors fs).used (grow_descriptors (init_descriptors fs))
          (init_descriptors-files fs)
  where
    filled :
        (i : ℕ) (gs : Ufs)
        → gs.file_list ≡ fs.file_list
        → WhenOk (λ r. SameNames fs r.1) (fill_descriptor i p flags gs)
    filled i gs same = WhenOk-bind (WhenOk-or_fault (find_file gs.file_list p)) λ f e.
        when_ok λ name.
          stored-SameNames gs p f (record f { refs = f.refs + 1 }) e (λ n. refl) name
          ∙ ap (λ l. find_name l name) same

    place :
        (o : Option ℕ)
        → WhenOk
            (λ r. SameNames fs r.1)
            (elim o [
              | none ↦ fail not_implemented (init_descriptors fs)
              | some i ↦ fill_descriptor i p flags (init_descriptors fs)
            ])
    place none = when_ok λ name. ap (λ l. find_name l name) (init_descriptors-files fs)
    place (some i) = filled i (init_descriptors fs) (init_descriptors-files fs)

pub unchanged :
    (fs : Ufs) (r : ℤ × Ufs) → r.1.file_list ≡ fs.file_list → WhenOk (λ r. SameNames fs r.1) (ok r)
unchanged fs r same = when_ok λ name. ap (λ l. find_name l name) same

pub ufs_write-SameNames :
    (fd : ℤ) (buf : List ℕ) (fs : Ufs) → WhenOk (λ r. SameNames fs r.1) (ufs_write fd buf fs)
unfolding ufs_write write_file
ufs_write-SameNames fd buf fs = WhenOk-bind (WhenOk-any (find_desc fd fs)) λ found _. go found
  where
    go :
        (found : Option (ℕ × FileDesc))
        → WhenOk
            (λ r. SameNames fs r.1)
            (elim found [
              | none ↦ fail no_file fs
              | some (i, desc) ↦
                  if not (has_flag desc.open_flags ufs_write_only)
                    && not (has_flag desc.open_flags ufs_read_write)
                  then fail no_permission fs
                  else if length buf == 0
                  then return 0 fs
                  else (do
                    f ← or_fault (find_file fs.file_list desc.file)
                    let too_big = ltb max_file_size ((f.size + length buf) % 2 ^ 64)
                    if too_big then fail no_mem fs else write_file i desc f buf fs)
            ])
    go none = unchanged fs _ refl
    go (some (i, desc)) =
        WhenOk-if
          (not (has_flag desc.open_flags ufs_write_only)
            && not (has_flag desc.open_flags ufs_read_write))
          (λ _. unchanged fs _ refl)
          λ _.
            WhenOk-if (length buf == 0) (λ _. unchanged fs _ refl)
              λ _. WhenOk-bind (WhenOk-or_fault (find_file fs.file_list desc.file)) λ f e.
                WhenOk-if (ltb max_file_size ((f.size + length buf) % 2 ^ 64))
                  (λ _. unchanged fs _ refl)
                  λ _.
                    WhenOk-bind
                      (WhenOk-any (walk (desc.offset / block_size) f.blocks (block_ptr f.blocks 0)))
                      λ cur _.
                        WhenOk-bind
                          (WhenOk-any (write_loop (length buf) f.blocks cur desc.offset buf))
                          λ (bs, offset) _. when_ok (
                            stored-SameNames fs desc.file f
                              (record f { blocks = bs; size = max f.size offset }) e λ n. refl)

pub ufs_close-SameNames : (fd : ℤ) (fs : Ufs) → WhenOk (λ r. SameNames fs r.1) (ufs_close fd fs)
unfolding ufs_close release_file
ufs_close-SameNames fd fs = WhenOk-bind (WhenOk-any (find_desc fd fs)) λ found _. go found
  where
    released :
        (p : Ptr) (f : File)
        → find_file fs.file_list p ≡ some f
        → (name : Name)
        → find_name (release_file fs.file_list p f) name ≡ find_name fs.file_list name
    released p f e name = elim (Bool-cases (leb (f.refs - 1) 0 && f.is_ghost)) [
      | inl gone ↦ rw gone (find_name-remove p f name fs.file_list e (ground (arith, gone)))
      | inr kept ↦
          rw kept (find_name-store p f name (record f { refs = f.refs - 1 }) fs.file_list e refl)
    ]

    go :
        (found : Option (ℕ × FileDesc))
        → WhenOk
            (λ r. SameNames fs r.1)
            (elim found [
              | none ↦ fail no_file fs
              | some (i, desc) ↦ (do
                f ← or_fault (find_file fs.file_list desc.file)
                return 0 (record fs {
                  file_list = release_file fs.file_list desc.file f;
                  file_descriptors = set fs.file_descriptors i none;
                  used = fs.used - 1;
                }))
            ])
    go none = unchanged fs _ refl
    go (some (i, desc)) =
        WhenOk-bind (WhenOk-or_fault (find_file fs.file_list desc.file))
          λ f e. when_ok (released desc.file f e)
