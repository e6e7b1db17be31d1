-- ===== src/Coro/Links/Refine.antt =====
-- The two changes of the linked list of homework-01/libcoro.c, beside those of the list of Coro.
use iu_sp.Base.{
  ℕ, ◌≡◌, refl, sym, ap, subst, ◌∙◌, none, some, List, [], ◌∷◌, ◌++◌, ◌⊎◌, arith, ◌==◌, Bool-cases,
  eqb→eq, inl, inr, Returns, returns, Returns-bind,
}
use iu_sp.Coro.{Coros, coro_list_delete}
use iu_sp.Coro.Waiting.{IsAbsent, IsDistinct}
use iu_sp.Coro.Links.{
  Links, LinkedList, put_struct, set_next, set_prev, set_prev_of, head_after, link_struct,
  unlink_struct,
}
use iu_sp.Coro.Links.Segments.{
  IsOut, IsUnique, first_or, last_or, IsLinked, IsLinked-same, IsLinked-before, IsLinked-after,
  IsLinked-join, set_next_of-IsLinked, set_prev_of-IsLinked, IsUnique-Around, IsSameOn-out,
  put_struct-IsSameOn, put_struct_same,
}

abbrev pub addresses : Coros → List ℕ
addresses [] = []
addresses ((p, c) ∷ cs) = p ∷ addresses cs

-- the linked list holds these coroutines in this order
pub record Holds (l : LinkedList) (cs : Coros) : Type 0 where
  pub head : l.coro_list ≡ first_or (addresses cs) none
  pub linked : IsLinked l.structs none (addresses cs) none

abbrev pub IsPresent : ℕ → Coros → Type 0
IsPresent p [] = ⊥
IsPresent p ((q, c) ∷ cs) = (q ≡ p) ⊎ IsPresent p cs

pub IsAbsent-IsOut : (p : ℕ) (cs : Coros) → IsAbsent p cs → IsOut p (addresses cs)
IsAbsent-IsOut p [] h = tt
IsAbsent-IsOut p ((q, c) ∷ cs) h = (h.0, IsAbsent-IsOut p cs h.1)

pub IsDistinct-IsUnique : (cs : Coros) → IsDistinct cs → IsUnique (addresses cs)
IsDistinct-IsUnique [] h = tt
IsDistinct-IsUnique ((q, c) ∷ cs) h = (IsAbsent-IsOut q cs h.0, IsDistinct-IsUnique cs h.1)

-- where coro_list_delete takes the coroutine out
pub coro_list_delete-parts :
    (p : ℕ) (cs : Coros)
    → IsPresent p cs
    → (ps qs : List ℕ) × (addresses cs ≡ ps ++ p ∷ qs)
      × (addresses (coro_list_delete p cs) ≡ ps ++ qs)
unfolding coro_list_delete
coro_list_delete-parts p [] h = absurd h
coro_list_delete-parts p ((q, c) ∷ cs) h = elim (Bool-cases (q == p)) [
  | inl here ↦ ([], addresses cs, ap (λ r. r ∷ addresses cs) (eqb→eq _ _ here), rw here refl)
  | inr away ↦ elim h [
    | inl same ↦ absurd (ground (arith, same, away))
    | inr later ↦
        let (ps, qs, e, f) = coro_list_delete-parts p cs later in
        (q ∷ ps, qs, ap (◌∷◌ q) e, rw away (ap (◌∷◌ q) f))
  ]
]

last_or-some : (p : ℕ) (ps : List ℕ) → (q : ℕ) × (last_or (some p) ps ≡ some q)
last_or-some p [] = (p, refl)
last_or-some p (q ∷ ps) = last_or-some q ps

-- the head is the first of the rest where the first goes, and stays else
head_after-first :
    (ps qs : List ℕ) (p : ℕ)
    → head_after
        (record { next = first_or qs none; prev = last_or none ps })
        (first_or (ps ++ p ∷ qs) none)
      ≡ first_or (ps ++ qs) none
head_after-first [] qs p = refl
head_after-first (r ∷ ps) qs p = let (q, e) = last_or-some r ps in rw e refl

module _ (l : LinkedList) (p : ℕ) (ps qs : List ℕ) (u : IsUnique (ps ++ p ∷ qs))
    (h : IsLinked l.structs none (ps ++ p ∷ qs) none) where
  pub unlink_struct-IsLinked :
      l.coro_list ≡ first_or (ps ++ p ∷ qs) none
      → Returns
          (λ r. (r.coro_list ≡ first_or (ps ++ qs) none) × IsLinked r.structs none (ps ++ qs) none)
          (unlink_struct p l)
  unfolding unlink_struct
  unlink_struct-IsLinked head =
      let front = IsLinked-before l.structs none none ps (p ∷ qs) h in
      let back = IsLinked-after l.structs none none ps (p ∷ qs) h in
      let a = IsUnique-Around ps p qs u in
      rw (back.0) (
        Returns-bind (set_next_of-IsLinked l.structs (some p) (first_or qs none) ps a.before front)
          λ st k.
            let moved =
              IsLinked-same l.structs st (some p) none qs
                (IsSameOn-out l.structs st ps qs k.1 a.apart') back.1 in
            Returns-bind (set_prev_of-IsLinked st (some p) (last_or none ps) qs a.after moved)
              λ st' m.
                let kept =
                  IsLinked-same st st' none (first_or qs none) ps
                    (IsSameOn-out st st' qs ps m.1 a.apart) k.0 in
                returns (
                  ap (head_after (record { next = first_or qs none; prev = last_or none ps })) head
                      ∙ head_after-first ps qs p,
                  IsLinked-join st' none none ps qs kept m.0,
                ))

-- a struct outside of the list becomes its first
pub link_struct-IsLinked :
    (l : LinkedList) (p : ℕ) (old : Links) (ps : List ℕ)
    → IsUnique ps
    → IsOut p ps
    → l.structs p ≡ some old
    → IsLinked l.structs none ps none
    → l.coro_list ≡ first_or ps none
    → Returns
        (λ r. (r.coro_list ≡ some p) × IsLinked r.structs none (p ∷ ps) none)
        (link_struct p l)
unfolding link_struct set_next set_prev
link_struct-IsLinked l p old ps unique out known h head =
    let one = record old { next = l.coro_list } in
    let two = record one { prev = none } in
    let st = put_struct p one l.structs in
    let st' = put_struct p two st in
    let same =
      IsLinked-same l.structs st none none ps (put_struct-IsSameOn p one l.structs ps out) h in
    let same' = IsLinked-same st st' none none ps (put_struct-IsSameOn p two st ps out) same in
    rw (known, put_struct_same p one l.structs)
      (Returns-bind
        (subst
          (λ v.
            Returns
              (λ st''. IsLinked st'' (some p) ps none × ((q : ℕ) → IsOut q ps → st'' q ≡ st' q))
              (set_prev_of v (some p) st'))
          (sym head) (set_prev_of-IsLinked st' none (some p) ps unique same'))
        λ st'' k. returns (
          refl,
          (
            k.1 p out
                ∙ put_struct_same p two st
                ∙ ap (λ v. some (record { next = v; prev = none })) head,
            k.0,
          ),
        ))
