-- ===== src/Userfs/References.antt =====
-- References: a descriptor opened, closed, and a file deleted, keep files and descriptors linked.
use iu_sp.Base.{
  total, total-set, le-total, ℕ, ◌+◌, ◌-◌, ◌≡◌, ◌≢◌, refl, true, none, some, inl, inr, List, arith,
  leb, ◌&&◌, if◌then◌else◌, Bool-cases, get_elem?, set, sym, ◌∙◌,
}
use iu_sp.Userfs.State.{Ptr, File, FileDesc, find_file, store_file, remove_file}
use iu_sp.Userfs.Close.{release_file}
use iu_sp.Userfs.Files.{find-store, find-remove, Distinct-remove}
use iu_sp.Userfs.Table.{Table, leads_to}
use iu_sp.Userfs.Invariant.{IsFile, Opens, Linked}
use iu_sp.Userfs.Linking.{set-inv, Opens-store, Linked-store}

module _ {n : ℕ} (fs : List (Ptr × File)) (ds : Table) (l : Linked n fs ds) where
  -- A new descriptor at a free place, for a file that is no ghost.
  pub Linked-attach :
      (i : ℕ) (p : Ptr) (f : File) (flags : ℕ)
      → get_elem? ds i ≡ some none
      → find_file fs p ≡ some f
      → Linked n
          (store_file fs p (record f { refs = f.refs + 1 }))
          (set ds i (some (record { file = p; open_flags = flags; offset = 0 })))
  Linked-attach i p f flags e live =
      Linked-store fs ds l p f (record f { refs = f.refs + 1 }) _ live
        (record { sound = s.sound; covered = s.covered; short = s.short }) (λ g. g) refl
        (ground (arith, l.counted p f live, sums p)) (λ g. omega arith)
        (λ q ne. ground (arith, sums q))
        (λ j c h. elim (set-inv ds i (some d) j c h) [
          | inl new ↦ record {
            target = record f { refs = f.refs + 1 };
            live = ground (arith, find-store fs p c.file (record f { refs = f.refs + 1 }) live);
            inside = ground arith;
          }
          | inr old ↦
              let o = l.opened j c old in
              Opens-store fs ds l p f (record f { refs = f.refs + 1 }) live c o
                λ here. ground (arith, o.live, o.inside, live)
        ])
    where
      d : FileDesc
      d = record { file = p; open_flags = flags; offset = 0 }

      s : IsFile n f
      s = l.files p f live

      sums :
          (q : Ptr)
          → total (leads_to q) (set ds i (some d)) ≡ total (leads_to q) ds + leads_to q (some d)
      sums q = omega (arith, total-set (leads_to q) ds i (some d) e)

  -- A file to which no descriptor of `ds'` leads goes away.
  Linked-remove :
      (p : Ptr) (f : File) (ds' : Table)
      → find_file fs p ≡ some f
      → total (leads_to p) ds' ≡ 0
      → ((q : Ptr) → p ≢ q → total (leads_to q) ds' ≡ total (leads_to q) ds)
      → ((i : ℕ) (d : FileDesc) → get_elem? ds' i ≡ some (some d) → Opens fs d)
      → Linked n (remove_file fs p) ds'
  Linked-remove p f ds' live unused others opens = record {
    distinct = Distinct-remove fs p l.distinct;
    files = λ q g e. l.files q g (old q g e);
    counted = λ q g e. l.counted q g (old q g e) ∙ sym (others q (apart q g e));
    haunted = λ q g e. l.haunted q g (old q g e);
    opened = λ i d e.
        let o = opens i d e in
        record {
          target = o.target;
          live = ground (arith, find-remove fs p d.file l.distinct, o.live, used i d e);
          inside = o.inside;
        };
    unique = λ q r g h m n.
        l.unique q r g h (record { live = old q g m.live; visible = m.visible; called = m.called })
          (record { live = old r h n.live; visible = n.visible; called = n.called });
  }
    where
      old : (q : Ptr) (g : File) → find_file (remove_file fs p) q ≡ some g → find_file fs q ≡ some g
      old q g e = ground (arith, find-remove fs p q l.distinct)

      apart : (q : Ptr) (g : File) → find_file (remove_file fs p) q ≡ some g → p ≢ q
      apart q g e same = ground (arith, find-remove fs p q l.distinct)

      used : (i : ℕ) (d : FileDesc) → get_elem? ds' i ≡ some (some d) → p ≢ d.file
      used i d e same = ground (arith, le-total (leads_to p) ds' i e)

  -- A descriptor closed.
  pub Linked-release :
      (i : ℕ) (d : FileDesc) (f : File)
      → get_elem? ds i ≡ some (some d)
      → find_file fs d.file ≡ some f
      → Linked n (release_file fs d.file f) (set ds i none)
  unfolding release_file
  Linked-release i d f e live = elim (Bool-cases (leb (f.refs - 1) 0 && f.is_ghost)) [
    | inl gone ↦ rw gone (
        Linked-remove d.file f (set ds i none) live (ground (arith, sums d.file, refs)) others
          opens)
    | inr stays ↦ rw stays (
        Linked-store fs ds l d.file f (record f { refs = f.refs - 1 }) (set ds i none) live
          (record { sound = s.sound; covered = s.covered; short = s.short }) (λ g. g) refl
          (ground (arith, sums d.file, refs)) (λ g. ground arith) others
          (λ j c h.
            let o = opens j c h in
            Opens-store fs ds l d.file f (record f { refs = f.refs - 1 }) live c o
              λ here. ground (arith, o.live, o.inside, live)))
  ]
    where
      s : IsFile n f
      s = l.files d.file f live

      refs : f.refs ≡ total (leads_to d.file) ds
      refs = l.counted d.file f live

      sums :
          (q : Ptr)
          → total (leads_to q) (set ds i none) + leads_to q (some d) ≡ total (leads_to q) ds
      sums q = omega (arith, total-set (leads_to q) ds i none e)

      others : (q : Ptr) → d.file ≢ q → total (leads_to q) (set ds i none) ≡ total (leads_to q) ds
      others q ne = ground (arith, sums q)

      opens : (j : ℕ) (c : FileDesc) → get_elem? (set ds i none) j ≡ some (some c) → Opens fs c
      opens j c h = elim (set-inv ds i none j c h) [
        | inl new ↦ absurd (absurd-some new)
        | inr old ↦ l.opened j c old
      ]
        where
          absurd-some : none ≡ some c → ⊥
          absurd-some p = cc

  -- A file deleted: it goes at once, or becomes a ghost.
  pub Linked-delete :
      (p : Ptr) (f : File)
      → find_file fs p ≡ some f
      → Linked n
          (if leb f.refs 0
            then remove_file fs p
            else store_file fs p (record f { is_ghost = true }))
          ds
  Linked-delete p f live = elim (Bool-cases (leb f.refs 0)) [
    | inl gone ↦
        rw gone
          (Linked-remove p f ds live (ground (arith, l.counted p f live)) (λ q ne. refl) l.opened)
    | inr stays ↦ rw stays (
        Linked-store fs ds l p f (record f { is_ghost = true }) ds live
          (record { sound = s.sound; covered = s.covered; short = s.short }) (λ g. cc) refl
          (l.counted p f live) (λ g. ground arith) (λ q ne. refl)
          (λ j c h.
            let o = l.opened j c h in
            Opens-store fs ds l p f (record f { is_ghost = true }) live c o
              λ here. ground (arith, o.live, o.inside, live)))
  ]
    where
      s : IsFile n f
      s = l.files p f live
