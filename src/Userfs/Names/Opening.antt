-- ===== src/Userfs/Names/Opening.antt =====
-- What ufs_open of homework-03/userfs.c does to the set of names.
use iu_sp.Base.{
  ℕ, ◌≡◌, refl, sym, ap, subst, ◌∙◌, Bool, true, false, ◌||◌, none, some, inl, inr, List, ◌∷◌,
  arith, Bool-cases, Option-cases, ok, ◌>>=◌, Returns, returns, Returns-bind, WhenOk-Returns,
}
use iu_sp.Int.{ℤ, negsuc}
use iu_sp.Userfs.State.{Ptr, Name, File, Ufs, no_file, name_eq, find_name}
use iu_sp.Userfs.Open.{effective_flags, new_file, ufs_open}
use iu_sp.Userfs.Files.{name_eq→eq}
use iu_sp.Userfs.Invariant.{IsValid}
use iu_sp.Userfs.Safe.Open.{IsFresh, OpenResult, missing, existing, created, ufs_open-Returns}
use iu_sp.Userfs.Safe.Desc.{IsValid-error}
use iu_sp.Userfs.Session.{Call, open_file}
use iu_sp.Userfs.Names.{is_some, has_name}
use iu_sp.Userfs.Names.Calls.{SameNames, open_descriptor-SameNames}
use iu_sp.Userfs.Names.Directory.{Directory, creates, dir_call, dir_answer, is_success, answer}

-- a state with this set of names
abbrev pub ShowsNames : Ufs → Directory → Type 0
ShowsNames fs d = (m : Name) → has_name fs.file_list m ≡ d m

-- the answer and the names after a call
abbrev pub Answers : Directory → Call → ℕ → Bool × Ufs → Type 0
Answers d c k r = IsValid k r.1 × (r.0 ≡ dir_answer c d) × ShowsNames r.1 (dir_call c d)

module _ {n : ℕ} (malloc : List (Ptr × File) → Ptr) (fresh : IsFresh malloc) (fs : Ufs)
    (v : IsValid n fs) (d : Directory) (h : ShowsNames fs d) where
  module _ (name : Name) (flags : ℕ) where
    opened-existing :
        (p : Ptr)
        → find_name fs.file_list name ≡ some p
        → (r : ℤ × Ufs) → (IsValid n r.1 × OpenResult n name flags fs r) × SameNames fs r.1
        → Answers d (open_file name flags) n (is_success r.0, r.1)
    opened-existing p e r ((valid, result), same) = (valid, good result, names)
      where
        there : d name ≡ true
        there = sym (h name) ∙ ap is_some e

        good : OpenResult n name flags fs r → is_success r.0 ≡ (d name || creates flags)
        good (missing none_named no_create q) = let never : none ≡ some p = sym none_named ∙ e in cc
        good (existing q f at live o) = rw there (ap is_success o.number)
        good (created q none_named asked new o) =
            let never : none ≡ some p = sym none_named ∙ e in cc

        names : ShowsNames r.1 (dir_call (open_file name flags) d)
        names m =
            let kept : has_name r.1.file_list m ≡ d m = ap is_some (same m) ∙ h m in
            elim (Bool-cases (creates flags)) [
              | inl create ↦ rw create (elim (Bool-cases (name_eq name m)) [
                | inl equal ↦ rw equal (kept ∙ ap d (sym (name_eq→eq name m equal)) ∙ there)
                | inr other ↦ rw other kept
              ])
              | inr no_create ↦ rw no_create kept
            ]

    opened-new :
        (p : Ptr)
        → find_name fs.file_list name ≡ none
        → creates flags ≡ true
        → (r : ℤ × Ufs)
        → (IsValid n r.1 × OpenResult n name flags fs r)
          × SameNames (record fs { file_list = (p, new_file name) ∷ fs.file_list }) r.1
        → Answers d (open_file name flags) n (is_success r.0, r.1)
    unfolding find_name
    opened-new p e create r ((valid, result), same) = (valid, good result, names)
      where
        good : OpenResult n name flags fs r → is_success r.0 ≡ (d name || creates flags)
        good (missing none_named no_create q) = absurd (ground (arith, create, no_create))
        good (existing q f at live o) = let never : none ≡ some q = sym e ∙ at in cc
        good (created q none_named asked new o) =
            let absent : d name ≡ false = sym (h name) ∙ ap is_some e in
            ap is_success o.number ∙ rw (absent, create) refl

        names : ShowsNames r.1 (dir_call (open_file name flags) d)
        names m = rw create (
            ap is_some (same m) ∙ elim (Bool-cases (name_eq name m)) [
              | inl equal ↦ rw equal refl
              | inr other ↦ rw other (h m)
            ])

    pub open-Answers :
        Returns (Answers d (open_file name flags) n) (answer malloc (open_file name flags) fs)
    unfolding answer ufs_open
    open-Answers =
        let whole = ufs_open-Returns malloc fs name flags fresh v in
        elim (Option-cases (find_name fs.file_list name)) [
          | inr (p, e) ↦
              Returns-bind
                (WhenOk-Returns whole
                  (rw (e, ufs_open) (open_descriptor-SameNames p (effective_flags flags) fs)))
                λ r k. returns (opened-existing p e r k)
          | inl e ↦ elim (Bool-cases (creates flags)) [
            | inl create ↦
                let p = malloc fs.file_list in
                let gs = record fs { file_list = (p, new_file name) ∷ fs.file_list } in
                Returns-bind
                  (WhenOk-Returns whole (
                    rw (e, create, ufs_open)
                      (open_descriptor-SameNames p (effective_flags flags) gs)))
                  λ r k. returns (opened-new p e create r k)
            | inr no_create ↦
                let failed : ufs_open malloc name flags fs
                    ≡ ok (negsuc 0, record fs { error_code = no_file }) =
                  rw (e, no_create, ufs_open) refl in
                let absent : d name ≡ false = sym (h name) ∙ ap is_some e in
                subst
                  (λ m.
                    Returns (Answers d (open_file name flags) n)
                      (m >>= λ r. ok (is_success r.0, r.1)))
                  (sym failed)
                  (returns
                    (IsValid-error no_file v, rw (absent, no_create) refl, λ m. rw no_create (h m)))
          ]
        ]
