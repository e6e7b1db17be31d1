-- ===== src/Userfs/Names.antt =====
-- The names that ufs_open and ufs_delete of homework-03/userfs.c find, and what the writes to the list
-- of files do to them.
pub mod Calls
pub mod Resizes
pub mod Directory
pub mod Opening
pub mod Refinement
use iu_sp.Base.{
  ◌≡◌, refl, sym, ap, subst, ◌∙◌, Bool, true, false, not, ◌&&◌, ◌||◌, Option, none, some, inl, inr,
  List, [], ◌∷◌, arith, ◌==◌, if◌then◌else◌, Bool-cases,
}
use iu_sp.Userfs.State.{Ptr, Name, File, name_eq, find_file, store_file, remove_file, find_name}

abbrev pub is_some : Option Ptr → Bool
is_some none = false
is_some (some p) = true

-- whether a file has the name
abbrev pub has_name : List (Ptr × File) → Name → Bool
has_name fs name = is_some (find_name fs name)

-- the test of find_name
abbrev pub shows : File → Name → Bool
shows f name = not f.is_ghost && name_eq f.name name

module _ (p : Ptr) (f : File) (name : Name) where
  pub find_name-store :
      (g : File) (fs : List (Ptr × File))
      → find_file fs p ≡ some f
      → shows g name ≡ shows f name
      → find_name (store_file fs p g) name ≡ find_name fs name
  unfolding find_name store_file find_file
  find_name-store g [] e same = refl
  find_name-store g ((q, h) ∷ fs) e same = elim (Bool-cases (q == p)) [
    | inl here ↦
        let found : some h ≡ some f = rw here at e in
        let equal : h ≡ f = cc in
        let shown : shows g name ≡ shows h name = same ∙ ap (λ k. shows k name) (sym equal) in
        rw (here, shown) refl
    | inr away ↦ let later = find_name-store g fs (rw away at e) same in rw (away, later) refl
  ]

  pub find_name-remove :
      (fs : List (Ptr × File))
      → find_file fs p ≡ some f
      → shows f name ≡ false
      → find_name (remove_file fs p) name ≡ find_name fs name
  unfolding find_name remove_file find_file
  find_name-remove [] e hidden = refl
  find_name-remove ((q, h) ∷ fs) e hidden = elim (Bool-cases (q == p)) [
    | inl here ↦
        let found : some h ≡ some f = rw here at e in
        let equal : h ≡ f = cc in
        let gone : shows h name ≡ false = ap (λ k. shows k name) equal ∙ hidden in
        rw (here, gone) refl
    | inr away ↦ let later = find_name-remove fs (rw away at e) hidden in rw (away, later) refl
  ]
