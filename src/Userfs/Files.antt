-- ===== src/Userfs/Files.antt =====
-- Laws of the list of files: look-up after a store, an unlink, and by name.
use iu_sp.Base.{
  ◌≡◌, refl, ap, true, false, not, ◌&&◌, none, some, inl, inr, List, [], ◌∷◌, arith, ◌==◌,
  if◌then◌else◌, Bool-cases,
}
use iu_sp.Userfs.State.{Ptr, Name, File, name_eq, find_file, store_file, remove_file, find_name}

-- no address stands twice
abbrev pub Distinct : List (Ptr × File) → Type 0
Distinct [] = Unit
Distinct ((p, f) ∷ fs) = (find_file fs p ≡ none) × Distinct fs

pub find-store :
    (fs : List (Ptr × File)) (p q : Ptr) (f : File) {g : File}
    → find_file fs p ≡ some g
    → find_file (store_file fs p f) q ≡ (if p == q then some f else find_file fs q)
unfolding find_file store_file
find-store [] p q f e = cc
find-store ((r, h) ∷ fs) p q f {g} e = ground (arith, find-store fs p q f {g = g})

find-store_none :
    (fs : List (Ptr × File)) (p q : Ptr) (f : File)
    → find_file fs q ≡ none
    → find_file (store_file fs p f) q ≡ none
unfolding find_file store_file
find-store_none [] p q f e = refl
find-store_none ((r, h) ∷ fs) p q f e = ground (arith, find-store_none fs p q f)

pub Distinct-store :
    (fs : List (Ptr × File)) (p : Ptr) (f : File) → Distinct fs → Distinct (store_file fs p f)
unfolding store_file
Distinct-store [] p f d = tt
Distinct-store ((r, h) ∷ fs) p f d = elim (Bool-cases (r == p)) [
  | inl e ↦ rw e d
  | inr e ↦ rw e (find-store_none fs p r f d.0, Distinct-store fs p f d.1)
]

pub find-remove :
    (fs : List (Ptr × File)) (p q : Ptr)
    → Distinct fs
    → find_file (remove_file fs p) q ≡ (if p == q then none else find_file fs q)
unfolding find_file remove_file
find-remove [] p q d = ground arith
find-remove ((r, h) ∷ fs) p q d = ground (arith, find-remove fs p q d.1)

find-remove_none :
    (fs : List (Ptr × File)) (p q : Ptr)
    → find_file fs q ≡ none
    → find_file (remove_file fs p) q ≡ none
unfolding find_file remove_file
find-remove_none [] p q e = refl
find-remove_none ((r, h) ∷ fs) p q e = ground (arith, find-remove_none fs p q)

pub Distinct-remove : (fs : List (Ptr × File)) (p : Ptr) → Distinct fs → Distinct (remove_file fs p)
unfolding remove_file
Distinct-remove [] p d = tt
Distinct-remove ((r, h) ∷ fs) p d = elim (Bool-cases (r == p)) [
  | inl e ↦ rw e d.1
  | inr e ↦ rw e (find-remove_none fs p r d.0, Distinct-remove fs p d.1)
]

pub name_eq_refl : (a : Name) → name_eq a a ≡ true
name_eq_refl [] = refl
name_eq_refl (x ∷ xs) = ground (arith, name_eq_refl xs)

pub name_eq→eq : (a b : Name) → name_eq a b ≡ true → a ≡ b
name_eq→eq [] [] h = refl
name_eq→eq [] (y ∷ ys) h = cc
name_eq→eq (x ∷ xs) [] h = cc
name_eq→eq (x ∷ xs) (y ∷ ys) h = ground (arith, name_eq→eq xs ys)

-- the file at `p` can be found by `name`
pub record Named (fs : List (Ptr × File)) (name : Name) (p : Ptr) (f : File) : Type 0 where
  pub live : find_file fs p ≡ some f
  pub visible : f.is_ghost ≡ false
  pub called : f.name ≡ name

-- what the search for a name finds is a file of that name that is no ghost
pub find_name-Named :
    (fs : List (Ptr × File)) (name : Name) (p : Ptr)
    → Distinct fs
    → find_name fs name ≡ some p
    → (f : File) × Named fs name p f
unfolding find_name find_file
find_name-Named [] name p d e = cc
find_name-Named ((q, g) ∷ fs) name p d e =
    elim (Bool-cases (not g.is_ghost && name_eq g.name name)) [
      | inl hit ↦ (
        g,
        record {
          live = ground arith;
          visible = ground arith;
          called = name_eq→eq g.name name (ground arith);
        },
      )
      | inr miss ↦
          let (f, n) = find_name-Named fs name p d.1 (ground arith) in
          (f, record { live = ground (arith, n.live, d.0); visible = n.visible; called = n.called })
    ]

-- where the search finds nothing, every file is a ghost or has another name
pub find_name-none :
    (fs : List (Ptr × File)) (name : Name)
    → find_name fs name ≡ none
    → (p : Ptr) (f : File) → Named fs name p f
    → ⊥
unfolding find_name find_file
find_name-none [] name e p f n = absurd-none n.live
  where
    absurd-none : none ≡ some f → ⊥
    absurd-none h = cc
find_name-none ((q, g) ∷ fs) name e p f n = elim (Bool-cases (q == p)) [
  | inl here ↦
      ground (arith, name_eq_refl name, n.live, n.visible, ap (λ t. name_eq t name) n.called)
  | inr there ↦
      find_name-none fs name (ground arith) p f
        (record { live = ground arith; visible = n.visible; called = n.called })
]
