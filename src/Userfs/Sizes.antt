-- ===== src/Userfs/Sizes.antt =====
-- A file that grows or shrinks, with its descriptors, stays linked to them.
use iu_sp.Base.{
  ℕ, zero, suc, ◌≤◌, ◌≡◌, refl, none, some, List, [], ◌∷◌, map, arith, get_elem?, sym, ◌∙◌, subst,
}
use iu_sp.Userfs.State.{Ptr, File, FileDesc, find_file, store_file}
use iu_sp.Userfs.Resize.{clamp_desc}
use iu_sp.Userfs.Table.{Table, total-clamp}
use iu_sp.Userfs.Invariant.{reach, IsFile, Linked}
use iu_sp.Userfs.Linking.{Opens-store, Linked-store}

-- where a clamped descriptor comes from
clamp-inv :
    (p : Ptr) (size : ℕ) (ds : Table) (i : ℕ) (d : FileDesc)
    → get_elem? (map (clamp_desc p size) ds) i ≡ some (some d)
    → (c : FileDesc) × (get_elem? ds i ≡ some (some c))
      × (d.file ≡ c.file)
      × (d.offset ≤ c.offset)
      × (c.file ≡ p → d.offset ≤ size)
unfolding clamp_desc
clamp-inv p size [] i d e = absurd (absurd-none e)
  where
    absurd-none : none ≡ some (some d) → ⊥
    absurd-none h = cc
clamp-inv p size (none ∷ ds) zero d e = absurd (ground arith)
clamp-inv p size (some c ∷ ds) zero d e = (c, refl, ground arith, ground arith, λ h. ground arith)
clamp-inv p size (x ∷ ds) (suc i) d e = clamp-inv p size ds i d e

module _ {n : ℕ} (fs : List (Ptr × File)) (ds : Table) (l : Linked n fs ds) (p : Ptr)
    (f g : File) where
  pub Linked-grow :
      find_file fs p ≡ some f
      → IsFile n g
      → g.refs ≡ f.refs
      → g.is_ghost ≡ f.is_ghost
      → g.name ≡ f.name
      → reach f ≤ reach g
      → Linked n (store_file fs p g) ds
  Linked-grow live sound refs ghost name grows =
      Linked-store fs ds l p f g ds live sound (λ gf. sym ghost ∙ gf) name
        (refs ∙ l.counted p f live) (λ gt. rw refs (l.haunted p f live (sym ghost ∙ gt)))
        (λ q ne. refl)
        (λ j c h.
          let o = l.opened j c h in
          Opens-store fs ds l p f g live c o λ here. ground (arith, o.live, o.inside, live))

  pub Linked-shrink :
      find_file fs p ≡ some f
      → IsFile n g
      → g.refs ≡ f.refs
      → g.is_ghost ≡ f.is_ghost
      → g.name ≡ f.name
      → Linked n (store_file fs p g) (map (clamp_desc p g.size) ds)
  Linked-shrink live sound refs ghost name =
      Linked-store fs ds l p f g _ live sound (λ gf. sym ghost ∙ gf) name
        (refs ∙ l.counted p f live ∙ sym (total-clamp p p g.size ds))
        (λ gt. rw refs (l.haunted p f live (sym ghost ∙ gt))) (λ q ne. total-clamp p q g.size ds)
        (λ j d h.
          let (c, old, same, less, inside) = clamp-inv p g.size ds j d h in
          let o = l.opened j c old in
          Opens-store fs ds l p f g live d
            (record {
              target = o.target;
              live = subst (λ q. find_file fs q ≡ some o.target) (sym same) o.live;
              inside = omega (arith, o.inside);
            })
            λ here. omega (arith, inside (sym same ∙ here), sound.covered))
