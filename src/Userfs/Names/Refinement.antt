-- ===== src/Userfs/Names/Refinement.antt =====
-- The set of names through the calls of homework-03/userfs.c.
use mathlib.Core.Path.{ap₂}
use iu_sp.Base.{
  ℕ, ◌+◌, ◌*◌, ◌^◌, ◌≤◌, ◌≡◌, refl, sym, ap, subst, ◌∙◌, Bool, true, false, not, ◌&&◌, none, some,
  inl, inr, List, [], ◌∷◌, arith, leb, if◌then◌else◌, Bool-cases, Option-cases, ok, ◌>>=◌, Returns,
  returns, Returns-map, Returns-bind, Returns-both, WhenOk, when_ok, WhenOk-bind, WhenOk-Returns,
}
use iu_sp.Int.{ℤ, negsuc}
use iu_sp.Userfs.Block.{block_size}
use iu_sp.Userfs.State.{
  Ptr, Name, File, Ufs, no_file, name_eq, store_file, remove_file, find_name, initial,
}
use iu_sp.Userfs.Close.{ufs_delete, ufs_destroy}
use iu_sp.Userfs.Files.{name_eq→eq, Named, find_name-Named}
use iu_sp.Userfs.Invariant.{IsValid, IsValid-weaken, initial-IsValid}
use iu_sp.Userfs.Safe.Open.{IsFresh}
use iu_sp.Userfs.Safe.Desc.{IsValid-error}
use iu_sp.Userfs.Safe.Close.{ufs_delete-IsValid, ufs_destroy-IsValid}
use iu_sp.Userfs.Contract.Delete.{ufs_delete-Deleted}
use iu_sp.Userfs.Session.{
  Call, open_file, write_file, read_file, close_file, delete_file, resize_file, destroy, call, cost,
  total_cost, call-IsValid,
}
use iu_sp.Userfs.Names.{is_some, has_name, shows, find_name-store, find_name-remove}
use iu_sp.Userfs.Names.Calls.{SameNames, ufs_write-SameNames, ufs_close-SameNames}
use iu_sp.Userfs.Names.Resizes.{ufs_resize-SameNames, ufs_read-SameNames}
use iu_sp.Userfs.Names.Directory.{
  Directory, dir_call, dir_answer, dir_session, is_success, answer, answers,
}
use iu_sp.Userfs.Names.Opening.{ShowsNames, Answers, open-Answers}

false_right : (b : Bool) → (b && false) ≡ false
false_right true = refl
false_right false = refl

module _ {n : ℕ} (malloc : List (Ptr × File) → Ptr) (fresh : IsFresh malloc) (fs : Ufs)
    (v : IsValid n fs) (d : Directory) (h : ShowsNames fs d) where
  -- the names after a deletion of the file at `p`, which had the name
  module _ (name : Name) where
    deleted-others :
        (p : Ptr) (f : File) (m : Name)
        → Named fs.file_list name p f
        → name_eq name m ≡ false
        → find_name
            (if leb f.refs 0
              then remove_file fs.file_list p
              else store_file fs.file_list p (record f { is_ghost = true }))
            m
          ≡ find_name fs.file_list m
    deleted-others p f m named other =
        let calls : name_eq f.name m ≡ false = ap (λ w. name_eq w m) named.called ∙ other in
        let hidden : shows f m ≡ false = rw calls (false_right (not f.is_ghost)) in
        elim (Bool-cases (leb f.refs 0)) [
          | inl gone ↦ rw gone (find_name-remove p f m fs.file_list named.live hidden)
          | inr kept ↦ rw kept (
              find_name-store p f m (record f { is_ghost = true }) fs.file_list named.live
                (sym hidden))
        ]

    delete-Answers : Returns (Answers d (delete_file name) n) (answer malloc (delete_file name) fs)
    unfolding answer ufs_delete
    delete-Answers = elim (Option-cases (find_name fs.file_list name)) [
      | inl e ↦
          let failed : ufs_delete name fs ≡ ok (negsuc 0, record fs { error_code = no_file }) =
            rw (e, ufs_delete) refl in
          let absent : d name ≡ false = sym (h name) ∙ ap is_some e in
          subst
            (λ m. Returns (Answers d (delete_file name) n) (m >>= λ r. ok (is_success r.0, r.1)))
            (sym failed) (returns (IsValid-error no_file v, sym absent, none_left absent))
      | inr (p, e) ↦
          let (f, named) = find_name-Named fs.file_list name p v.linked.distinct e in
          Returns-bind
            (WhenOk-Returns
              (Returns-both (ufs_delete-IsValid fs name v) (ufs_delete-Deleted fs name p v e))
              (others p f e named))
            λ r k. returns (
              k.0.0,
              ap is_success k.0.1.0 ∙ sym (sym (h name) ∙ ap is_some e),
              gone r.1 k.0.1.1.unnamed k.1,
            )
    ]
      where
        none_left :
            d name ≡ false → (m : Name) → has_name fs.file_list m ≡ (not (name_eq name m) && d m)
        none_left absent m = elim (Bool-cases (name_eq name m)) [
          | inl equal ↦ rw equal (h m ∙ ap d (sym (name_eq→eq name m equal)) ∙ absent)
          | inr other ↦ rw other (h m)
        ]

        others :
            (p : Ptr) (f : File)
            → find_name fs.file_list name ≡ some p
            → Named fs.file_list name p f
            → WhenOk
                (λ (r : ℤ × Ufs).
                  (m : Name)
                  → name_eq name m ≡ false
                  → find_name r.1.file_list m ≡ find_name fs.file_list m)
                (ufs_delete name fs)
        others p f e named =
            rw (e, ufs_delete, named.live) (when_ok λ m other. deleted-others p f m named other)

        gone :
            (gs : Ufs)
            → find_name gs.file_list name ≡ none
            → ((m : Name)
                → name_eq name m ≡ false
                → find_name gs.file_list m ≡ find_name fs.file_list m)
            → ShowsNames gs (dir_call (delete_file name) d)
        gone gs unnamed kept m = elim (Bool-cases (name_eq name m)) [
          | inl equal ↦ rw equal (
              ap (λ x. has_name gs.file_list x) (sym (name_eq→eq name m equal))
              ∙ ap is_some unnamed)
          | inr other ↦ rw other (ap is_some (kept m other) ∙ h m)
        ]

  -- a call that takes no name
  unnamed-Answers :
      (c : Call) (k : ℕ)
      → Returns (IsValid k) (call malloc c fs)
      → WhenOk (SameNames fs) (call malloc c fs)
      → true ≡ dir_answer c d
      → ((m : Name) → d m ≡ dir_call c d m)
      → Returns (Answers d c k) (call malloc c fs >>= λ gs. ok (true, gs))
  unnamed-Answers c k valid same good as_before =
      Returns-bind (WhenOk-Returns valid same)
        λ gs w. returns (w.0, good, λ m. ap is_some (w.1 m) ∙ h m ∙ as_before m)

  answer-Answers :
      (c : Call) → block_size * n ≤ 2 ^ 31 → Returns (Answers d c (n + cost c)) (answer malloc c fs)
  unfolding answer call ufs_destroy find_name
  answer-Answers (open_file name flags) small =
      Returns-map (open-Answers malloc fresh fs v d h name flags)
        λ r k. (IsValid-weaken (omega arith) k.0, k.1, k.2)
  answer-Answers (write_file fd buf) small =
      unnamed-Answers (write_file fd buf) (n + cost (write_file fd buf))
        (call-IsValid malloc fresh (write_file fd buf) fs v small)
        (WhenOk-bind (ufs_write-SameNames fd buf fs) λ r s. when_ok s) refl λ m. refl
  answer-Answers (read_file fd size) small =
      unnamed-Answers (read_file fd size) (n + cost (read_file fd size))
        (call-IsValid malloc fresh (read_file fd size) fs v small)
        (WhenOk-bind (ufs_read-SameNames fd size fs) λ r s. when_ok s) refl λ m. refl
  answer-Answers (close_file fd) small =
      unnamed-Answers (close_file fd) (n + cost (close_file fd))
        (call-IsValid malloc fresh (close_file fd) fs v small)
        (WhenOk-bind (ufs_close-SameNames fd fs) λ r s. when_ok s) refl λ m. refl
  answer-Answers (delete_file name) small =
      Returns-map (delete-Answers name) λ r k. (IsValid-weaken (omega arith) k.0, k.1, k.2)
  answer-Answers (resize_file fd size) small =
      unnamed-Answers (resize_file fd size) (n + cost (resize_file fd size))
        (call-IsValid malloc fresh (resize_file fd size) fs v small)
        (WhenOk-bind (ufs_resize-SameNames fd size fs) λ r s. when_ok s) refl λ m. refl
  answer-Answers destroy small =
      returns (IsValid-weaken (omega arith) (ufs_destroy-IsValid fs), refl, λ m. refl)

module _ (malloc : List (Ptr × File) → Ptr) (fresh : IsFresh malloc) where
  answers-ShowsNames :
      (cs : List Call) {n : ℕ} (fs : Ufs)
      → IsValid n fs
      → (d : Directory) → ShowsNames fs d
      → block_size * (n + total_cost cs) ≤ 2 ^ 31
      → Returns
          (λ r. (r.0 ≡ (dir_session cs d).0) × ShowsNames r.1 (dir_session cs d).1)
          (answers malloc cs fs)
  unfolding answers
  answers-ShowsNames [] fs v d h small = returns (refl, h)
  answers-ShowsNames (c ∷ cs) {n} fs v d h small =
      Returns-bind (answer-Answers malloc fresh fs v d h c (omega arith)) λ r k.
        Returns-bind
          (answers-ShowsNames cs {n = n + cost c} r.1 k.0 (dir_call c d) k.2 (omega arith))
          λ q w. returns (ap₂ ◌∷◌ k.1 w.0, w.1)

  -- From the static initialisers, any sequence of calls answers as a set of names does that knows
  -- nothing of files, descriptors and ghosts, and leaves the names of that set, where malloc gives
  -- fresh addresses and the calls together make at most 2 GiB of blocks: ufs_open succeeds if the name
  -- is in the set or its flags create it, and adds it then; ufs_delete succeeds if the name is in the
  -- set, and takes it out; ufs_destroy empties the set, and no other call changes it.
  pub answers-Directory :
      (cs : List Call)
      → block_size * total_cost cs ≤ 2 ^ 31
      → Returns
          (λ r.
            (r.0 ≡ (dir_session cs (λ m. false)).0)
            × ((m : Name) → has_name r.1.file_list m ≡ (dir_session cs (λ m. false)).1 m))
          (answers malloc cs initial)
  unfolding find_name
  answers-Directory cs small =
      answers-ShowsNames cs initial initial-IsValid (λ m. false) (λ m. refl) (omega arith)
