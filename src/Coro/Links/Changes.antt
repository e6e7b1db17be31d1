-- ===== src/Coro/Links/Changes.antt =====
-- Sequences of changes of the linked list of homework-01/libcoro.c, and of the list of Coro.
use iu_sp.Base.{
  ℕ, ◌≡◌, refl, sym, ap, subst, ◌∙◌, Option, none, some, List, [], ◌∷◌, arith, ◌==◌, Bool-cases,
  eqb→eq, inl, inr, Returns, returns, Returns-bind, Returns-map,
}
use iu_sp.Coro.{Coros, new_coro, coro_list_add, coro_list_delete, yield_target}
use iu_sp.Coro.Waiting.{IsAbsent, IsDistinct}
use iu_sp.Coro.Links.{
  Links, Store, LinkedList, put_struct, link_struct, unlink_struct, free_struct, Change,
  change_links,
}
use iu_sp.Coro.Links.Segments.{
  IsOut, IsUnique, first_or, IsLinked, IsSameOn, IsLinked-same, put_struct-IsSameOn,
  put_struct_same,
}
use iu_sp.Coro.Links.Refine.{
  addresses, Holds, IsPresent, IsAbsent-IsOut, IsDistinct-IsUnique, coro_list_delete-parts,
  unlink_struct-IsLinked, link_struct-IsLinked,
}

-- the list after the changes
abbrev pub change_list : List Change → Coros → Coros
change_list [] cs = cs
change_list (Change.added p old ∷ ks) cs = change_list ks (coro_list_add p new_coro cs)
change_list (Change.removed p ∷ ks) cs = change_list ks (coro_list_delete p cs)
change_list (Change.freed p ∷ ks) cs = change_list ks cs

-- what is added or freed is not in the list, and what is removed is
abbrev pub IsFair : List Change → Coros → Type 0
IsFair [] cs = Unit
IsFair (Change.added p old ∷ ks) cs = IsAbsent p cs × IsFair ks (coro_list_add p new_coro cs)
IsFair (Change.removed p ∷ ks) cs = IsPresent p cs × IsFair ks (coro_list_delete p cs)
IsFair (Change.freed p ∷ ks) cs = IsAbsent p cs × IsFair ks cs

coro_list_delete-IsAbsent :
    (p q : ℕ) (cs : Coros) → IsAbsent q cs → IsAbsent q (coro_list_delete p cs)
unfolding coro_list_delete
coro_list_delete-IsAbsent p q [] h = tt
coro_list_delete-IsAbsent p q ((r, c) ∷ cs) h = elim (Bool-cases (r == p)) [
  | inl here ↦ rw here (h.1)
  | inr away ↦ rw away (h.0, coro_list_delete-IsAbsent p q cs h.1)
]

coro_list_delete-IsDistinct :
    (p : ℕ) (cs : Coros) → IsDistinct cs → IsDistinct (coro_list_delete p cs)
unfolding coro_list_delete
coro_list_delete-IsDistinct p [] d = tt
coro_list_delete-IsDistinct p ((r, c) ∷ cs) d = elim (Bool-cases (r == p)) [
  | inl here ↦ rw here (d.1)
  | inr away ↦ rw away (coro_list_delete-IsAbsent p r cs d.0, coro_list_delete-IsDistinct p cs d.1)
]

-- the struct's next is whom a yield switches to
next-yield_target :
    (st : Store) (front : Option ℕ) (p : ℕ) (cs : Coros)
    → IsPresent p cs
    → IsDistinct cs
    → IsLinked st front (addresses cs) none
    → (l : Links) × (st p ≡ some l) × (l.next ≡ yield_target p cs)
unfolding yield_target
next-yield_target st front p [] h d k = absurd h
next-yield_target st front p ((q, c) ∷ []) h d k = elim (Bool-cases (q == p)) [
  | inl here ↦ (
    record { next = none; prev = front },
    subst (λ r. st r ≡ some (record { next = none; prev = front })) (eqb→eq _ _ here) k.0,
    rw here refl,
  )
  | inr away ↦ elim h [ inl same ↦ absurd (ground (arith, same, away)) | inr later ↦ absurd later ]
]
next-yield_target st front p ((q, c) ∷ (r, x) ∷ cs) h d k = elim (Bool-cases (q == p)) [
  | inl here ↦ (
    record { next = some r; prev = front },
    subst (λ s. st s ≡ some (record { next = some r; prev = front })) (eqb→eq _ _ here) k.0,
    rw here refl,
  )
  | inr away ↦ elim h [
    | inl same ↦ absurd (ground (arith, same, away))
    | inr later ↦ rw away (next-yield_target st (some q) p ((r, x) ∷ cs) later d.1 k.1)
  ]
]

free_struct-IsSameOn :
    (p : ℕ) (st : Store) (ps : List ℕ) → IsOut p ps → IsSameOn st (free_struct p st) ps
free_struct-IsSameOn p st [] out = tt
free_struct-IsSameOn p st (q ∷ ps) out = (rw (out.0) refl, free_struct-IsSameOn p st ps out.1)

module _ (l : LinkedList) (cs : Coros) (h : Holds l cs) (d : IsDistinct cs) where
  added-Holds :
      (p : ℕ) (old : Links)
      → IsAbsent p cs
      → Returns
          (λ r. Holds r (coro_list_add p new_coro cs))
          (link_struct p (record l { structs = put_struct p old l.structs }))
  unfolding coro_list_add
  added-Holds p old absent =
      let out = IsAbsent-IsOut p cs absent in
      Returns-map
        (link_struct-IsLinked (record l { structs = put_struct p old l.structs }) p old
          (addresses cs) (IsDistinct-IsUnique cs d) out (put_struct_same p old l.structs)
          (IsLinked-same l.structs (put_struct p old l.structs) none none (addresses cs)
            (put_struct-IsSameOn p old l.structs (addresses cs) out) h.linked)
          h.head)
        λ r k. record { head = k.0; linked = k.1 }

  removed-Holds :
      (p : ℕ) → IsPresent p cs → Returns (λ r. Holds r (coro_list_delete p cs)) (unlink_struct p l)
  removed-Holds p present =
      let (ps, qs, e, f) = coro_list_delete-parts p cs present in
      Returns-map
        (unlink_struct-IsLinked l p ps qs (subst IsUnique e (IsDistinct-IsUnique cs d))
          (subst (λ xs. IsLinked l.structs none xs none) e h.linked)
          (h.head ∙ ap (λ xs. first_or xs none) e))
        λ r k. record {
          head = k.0 ∙ ap (λ xs. first_or xs none) (sym f);
          linked = subst (λ xs. IsLinked r.structs none xs none) (sym f) k.1;
        }

  freed-Holds : (p : ℕ) → IsAbsent p cs → Holds (record l { structs = free_struct p l.structs }) cs
  freed-Holds p absent = record {
    head = h.head;
    linked =
        IsLinked-same l.structs (free_struct p l.structs) none none (addresses cs)
          (free_struct-IsSameOn p l.structs (addresses cs) (IsAbsent-IsOut p cs absent)) h.linked;
  }

-- From a linked list of some coroutines at different addresses, any changes that add and free structs
-- outside of the list and remove those in it end without a fault, and the linked list then is that of
-- the coroutines that the list functions of Coro give; `next` of each is whom its coro_yield goes to.
pub change_links-Holds :
    (ks : List Change) (l : LinkedList) (cs : Coros)
    → Holds l cs
    → IsDistinct cs
    → IsFair ks cs
    → Returns
        (λ r.
          Holds r (change_list ks cs)
          × ((p : ℕ)
              → IsPresent p (change_list ks cs)
              → (n : Links) × (r.structs p ≡ some n)
                × (n.next ≡ yield_target p (change_list ks cs))))
        (change_links ks l)
unfolding change_links coro_list_add
change_links-Holds [] l cs h d fair =
    returns (h, λ p present. next-yield_target l.structs none p cs present d h.linked)
change_links-Holds (Change.added p old ∷ ks) l cs h d fair =
    Returns-bind (added-Holds l cs h d p old fair.0)
      λ r k. change_links-Holds ks r (coro_list_add p new_coro cs) k (fair.0, d) fair.1
change_links-Holds (Change.removed p ∷ ks) l cs h d fair =
    Returns-bind (removed-Holds l cs h d p fair.0) λ r k.
      change_links-Holds ks r (coro_list_delete p cs) k (coro_list_delete-IsDistinct p cs d) fair.1
change_links-Holds (Change.freed p ∷ ks) l cs h d fair =
    change_links-Holds ks (record l { structs = free_struct p l.structs }) cs
      (freed-Holds l cs h d p fair.0) d fair.1
