-- ===== src/Userfs/Linking.antt =====
-- How each kind of change to the files and the descriptors keeps them linked.
use iu_sp.Base.{
  total, total-set, ℕ, zero, suc, ◌≤◌, ◌<◌, ◌≡◌, ◌≢◌, ◌⊎◌, refl, true, false, Option, none, some,
  inl, inr, List, [], ◌∷◌, ◌++◌, arith, ◌==◌, if◌then◌else◌, get_elem?, set, sym, replicate, ◌∙◌,
  subst,
}
use native.Mathlib.Decide.{ℕ_discrete}
use iu_sp.Userfs.State.{Ptr, Name, File, FileDesc, find_file, store_file, find_name}
use iu_sp.Userfs.Open.{new_file}
use iu_sp.Userfs.Files.{find-store, Distinct-store, Named, find_name-none}
use iu_sp.Userfs.Table.{Table, leads_to, total-append_replicate}
use iu_sp.Userfs.Invariant.{reach, IsFile, Opens, Linked, no_leads}

-- an entry of an array after one write is the new entry or an old one
pub set-inv :
    (ds : Table) (i : ℕ) (v : Option FileDesc) (j : ℕ) (d : FileDesc)
    → get_elem? (set ds i v) j ≡ some (some d)
    → (v ≡ some d) ⊎ (get_elem? ds j ≡ some (some d))
set-inv [] i v j d e = cc
set-inv (x ∷ ds) zero v zero d e = inl (ground arith)
set-inv (x ∷ ds) zero v (suc j) d e = inr e
set-inv (x ∷ ds) (suc i) v zero d e = inr e
set-inv (x ∷ ds) (suc i) v (suc j) d e = set-inv ds i v j d e

module _ {n : ℕ} (fs : List (Ptr × File)) (ds : Table) (l : Linked n fs ds) (p : Ptr)
    (f g : File) where
  pub Opens-store :
      find_file fs p ≡ some f
      → (d : FileDesc) → Opens fs d
      → (d.file ≡ p → d.offset ≤ reach g)
      → Opens (store_file fs p g) d
  Opens-store live d o h = elim (ℕ_discrete d.file p) [
    | yes e ↦ record {
      target = g;
      live = ground (arith, find-store fs p d.file g live);
      inside = h e;
    }
    | no ne ↦ record {
      target = o.target;
      live = ground (arith, find-store fs p d.file g live, o.live);
      inside = o.inside;
    }
  ]

  -- The file at `p` becomes `g`, and the descriptors `ds'`.
  pub Linked-store :
      (ds' : Table)
      → find_file fs p ≡ some f
      → IsFile n g
      → (g.is_ghost ≡ false → f.is_ghost ≡ false)
      → g.name ≡ f.name
      → g.refs ≡ total (leads_to p) ds'
      → (g.is_ghost ≡ true → 0 < g.refs)
      → ((q : Ptr) → p ≢ q → total (leads_to q) ds' ≡ total (leads_to q) ds)
      → ((i : ℕ) (d : FileDesc) → get_elem? ds' i ≡ some (some d) → Opens (store_file fs p g) d)
      → Linked n (store_file fs p g) ds'
  Linked-store ds' live sound alive name refs ghost others opens = record {
    distinct = Distinct-store fs p g l.distinct;
    files = λ q h e. elim (ℕ_discrete p q) [
      | yes here ↦ subst (IsFile n) (ground (arith, at q)) sound
      | no there ↦ l.files q h (ground (arith, at q))
    ];
    counted = λ q h e. elim (ℕ_discrete p q) [
      | yes here ↦ rw (← here) (ground (arith, at q, refs))
      | no there ↦ l.counted q h (ground (arith, at q)) ∙ sym (others q there)
    ];
    haunted = λ q h e gh. elim (ℕ_discrete p q) [
      | yes here ↦ ground (arith, at q, ghost)
      | no there ↦ l.haunted q h (ground (arith, at q)) gh
    ];
    opened = opens;
    unique = λ q r h k m n.
        let (h', m') = old q h m in
        let (k', n') = old r k n in
        l.unique q r h' k' (record { live = m'.live; visible = m'.visible; called = refl })
          (record { live = n'.live; visible = n'.visible; called = n'.called ∙ sym m'.called });
  }
    where
      at : (q : Ptr) → find_file (store_file fs p g) q ≡ (if p == q then some g else find_file fs q)
      at q = find-store fs p q g live

      old :
          (q : Ptr) {n : Name} (h : File)
          → Named (store_file fs p g) n q h
          → (k : File) × Named fs n q k
      old q h m = elim (ℕ_discrete p q) [
        | yes here ↦ (
          f,
          record {
            live = ground (arith, live);
            visible = alive (ground (arith, at q, m.live, m.visible));
            called = ground (arith, at q, m.live, m.called, name);
          },
        )
        | no there ↦ (
          h,
          record { live = ground (arith, at q, m.live); visible = m.visible; called = m.called },
        )
      ]

module _ {n : ℕ} (fs : List (Ptr × File)) (ds : Table) (l : Linked n fs ds) where
  -- the new contents of a file, and the descriptor moved that wrote them
  pub Linked-write :
      (i : ℕ) (d : FileDesc) (f g : File) (offset : ℕ)
      → get_elem? ds i ≡ some (some d)
      → find_file fs d.file ≡ some f
      → IsFile n g
      → g.refs ≡ f.refs
      → g.is_ghost ≡ f.is_ghost
      → g.name ≡ f.name
      → reach f ≤ reach g
      → offset ≤ reach g
      → Linked n (store_file fs d.file g) (set ds i (some (record d { offset = offset })))
  Linked-write i d f g offset e live sound refs ghost name grows inside =
      Linked-store fs ds l d.file f g _ live sound (λ gf. sym ghost ∙ gf) name
        (refs ∙ l.counted d.file f live ∙ sym (same d.file))
        (λ gt. rw refs (l.haunted d.file f live (sym ghost ∙ gt))) (λ q ne. same q)
        (λ j c h. elim (set-inv ds i (some (record d { offset = offset })) j c h) [
          | inl new ↦ record {
            target = g;
            live = ground (arith, find-store fs d.file c.file g live);
            inside = ground arith;
          }
          | inr old ↦
              let o = l.opened j c old in
              Opens-store fs ds l d.file f g live c o λ here. within c o here
        ])
    where
      same :
          (q : Ptr)
          → total (leads_to q) (set ds i (some (record d { offset = offset })))
            ≡ total (leads_to q) ds
      same q = omega (arith, total-set (leads_to q) ds i (some (record d { offset = offset })) e)

      within : (c : FileDesc) → Opens fs c → c.file ≡ d.file → c.offset ≤ reach g
      within c o here = ground (arith, o.live, o.inside, live)

  -- a descriptor moved inside its file
  pub Linked-move :
      (i : ℕ) (d : FileDesc) (f : File) (offset : ℕ)
      → get_elem? ds i ≡ some (some d)
      → find_file fs d.file ≡ some f
      → offset ≤ reach f
      → Linked n fs (set ds i (some (record d { offset = offset })))
  Linked-move i d f offset e live inside = record {
    distinct = l.distinct;
    files = l.files;
    counted = λ p g h.
        l.counted p g h
        ∙ omega (arith, total-set (leads_to p) ds i (some (record d { offset = offset })) e);
    haunted = l.haunted;
    opened = λ j c h. elim (set-inv ds i (some (record d { offset = offset })) j c h) [
      | inl new ↦ record { target = f; live = ground (arith, live); inside = ground arith }
      | inr old ↦ l.opened j c old
    ];
    unique = l.unique;
  }

  -- a new file, which has no descriptor yet
  pub Linked-create :
      (p : Ptr) (name : Name)
      → find_file fs p ≡ none
      → find_name fs name ≡ none
      → Linked n ((p, new_file name) ∷ fs) ds
  unfolding find_file
  Linked-create p name fresh new = record {
    distinct = (fresh, l.distinct);
    files = λ q f e. elim (ℕ_discrete p q) [
      | yes here ↦
          subst (IsFile n) {x = new_file name} (ground arith)
            (record { sound = tt; covered = omega arith; short = omega arith })
      | no there ↦ l.files q f (ground arith)
    ];
    counted = λ q f e. elim (ℕ_discrete p q) [
      | yes here ↦ rw (← here) (ground (arith, no_leads p l fresh))
      | no there ↦ l.counted q f (ground arith)
    ];
    haunted = λ q f e gh. l.haunted q f (ground arith) gh;
    opened = λ i d e.
        let o = l.opened i d e in
        record { target = o.target; live = ground (arith, o.live); inside = o.inside };
    unique = λ q r f g m n. both q r f g m n (ℕ_discrete p q) (ℕ_discrete p r);
  }
    where
      -- an old file of the new name, against the search
      none_named : (r : Ptr) (g : File) → Named fs name r g → ⊥
      none_named r g n = find_name-none fs name new r g n

      both :
          (q r : Ptr) (f g : File)
          → Named ((p, new_file name) ∷ fs) f.name q f
          → Named ((p, new_file name) ∷ fs) f.name r g
          → Dec (p ≡ q)
          → Dec (p ≡ r)
          → q ≡ r
      both q r f g m n (yes a) (yes b) = sym a ∙ b
      both q r f g m n (yes a) (no b) = absurd (
          none_named r g (record {
            live = ground (arith, n.live);
            visible = n.visible;
            called = ground (arith, m.live, n.called);
          }))
      both q r f g m n (no a) (yes b) = absurd (
          none_named q f (record {
            live = ground (arith, m.live);
            visible = m.visible;
            called = ground (arith, n.live, n.called);
          }))
      both q r f g m n (no a) (no b) =
          l.unique q r f g
            (record { live = ground (arith, m.live); visible = m.visible; called = m.called })
            (record { live = ground (arith, n.live); visible = n.visible; called = n.called })

  -- a longer array
  pub Linked-append : (k : ℕ) → Linked n fs (ds ++ replicate k none)
  Linked-append k = record {
    distinct = l.distinct;
    files = l.files;
    counted = λ p f e. l.counted p f e ∙ sym (total-append_replicate (leads_to p) ds k refl);
    haunted = l.haunted;
    opened = λ i d e. l.opened i d (old ds i e);
    unique = l.unique;
  }
    where
      nothing : (m i : ℕ) {d : FileDesc} → get_elem? (replicate m none) i ≡ some (some d) → ⊥
      nothing zero i e = cc
      nothing (suc m) zero e = cc
      nothing (suc m) (suc i) e = nothing m i e

      old :
          (es : Table) (i : ℕ) {d : FileDesc}
          → get_elem? (es ++ replicate k none) i ≡ some (some d)
          → get_elem? es i ≡ some (some d)
      old [] i e = absurd (nothing k i e)
      old (x ∷ es) zero e = e
      old (x ∷ es) (suc i) e = old es i e
