-- ===== src/Coro/Links/Segments.antt =====
-- Stretches of a linked list in the store, and the writes of links at their ends.
use iu_sp.Base.{
  ℕ, ◌≡◌, refl, ◌∙◌, true, false, Option, none, some, List, [], ◌∷◌, ◌++◌, All, arith, ◌==◌,
  Returns, returns, Returns-map,
}
use iu_sp.Coro.Links.{Links, Store, put_struct, set_next, set_prev, set_next_of, set_prev_of}

-- the address does not stand in the list, and none stands twice
abbrev pub IsOut : ℕ → List ℕ → Type 0
IsOut p ps = All (λ q. (q == p) ≡ false) ps

abbrev pub IsUnique : List ℕ → Type 0
IsUnique [] = Unit
IsUnique (p ∷ ps) = IsOut p ps × IsUnique ps

abbrev pub first_or : List ℕ → Option ℕ → Option ℕ
first_or [] behind = behind
first_or (p ∷ ps) behind = some p

abbrev pub last_or : Option ℕ → List ℕ → Option ℕ
last_or front [] = front
last_or front (p ∷ ps) = last_or (some p) ps

-- the structs at these addresses are linked in this order, between the links to `front` and `behind`
abbrev pub IsLinked : Store → Option ℕ → List ℕ → Option ℕ → Type 0
IsLinked st front [] behind = Unit
IsLinked st front (p ∷ ps) behind =
    (st p ≡ some (record { next = first_or ps behind; prev = front }))
    × IsLinked st (some p) ps behind

-- two stores with the same structs here
abbrev pub IsSameOn : Store → Store → List ℕ → Type 0
IsSameOn st st' ps = All (λ p. st' p ≡ st p) ps

pub IsLinked-same :
    (st st' : Store) (front behind : Option ℕ) (ps : List ℕ)
    → IsSameOn st st' ps
    → IsLinked st front ps behind
    → IsLinked st' front ps behind
IsLinked-same st st' front behind [] same h = tt
IsLinked-same st st' front behind (p ∷ ps) same h =
    (same.0 ∙ h.0, IsLinked-same st st' (some p) behind ps same.1 h.1)

pub IsLinked-before :
    (st : Store) (front behind : Option ℕ) (ps qs : List ℕ)
    → IsLinked st front (ps ++ qs) behind
    → IsLinked st front ps (first_or qs behind)
IsLinked-before st front behind [] qs h = tt
IsLinked-before st front behind (p ∷ []) qs h = (h.0, tt)
IsLinked-before st front behind (p ∷ q ∷ ps) qs h =
    (h.0, IsLinked-before st (some p) behind (q ∷ ps) qs h.1)

pub IsLinked-after :
    (st : Store) (front behind : Option ℕ) (ps qs : List ℕ)
    → IsLinked st front (ps ++ qs) behind
    → IsLinked st (last_or front ps) qs behind
IsLinked-after st front behind [] qs h = h
IsLinked-after st front behind (p ∷ ps) qs h = IsLinked-after st (some p) behind ps qs h.1

pub IsLinked-join :
    (st : Store) (front behind : Option ℕ) (ps qs : List ℕ)
    → IsLinked st front ps (first_or qs behind)
    → IsLinked st (last_or front ps) qs behind
    → IsLinked st front (ps ++ qs) behind
IsLinked-join st front behind [] qs h k = k
IsLinked-join st front behind (p ∷ []) qs h k = (h.0, k)
IsLinked-join st front behind (p ∷ q ∷ ps) qs h k =
    (h.0, IsLinked-join st (some p) behind (q ∷ ps) qs h.1 k)

-- a write to one struct leaves the others
pub put_struct-IsSameOn :
    (p : ℕ) (l : Links) (st : Store) (ps : List ℕ) → IsOut p ps → IsSameOn st (put_struct p l st) ps
put_struct-IsSameOn p l st [] out = tt
put_struct-IsSameOn p l st (q ∷ ps) out = (rw (out.0) refl, put_struct-IsSameOn p l st ps out.1)

pub put_struct_same : (p : ℕ) (l : Links) (st : Store) → put_struct p l st p ≡ some l
put_struct_same p l st = let self : (p == p) ≡ true = ground arith in rw self refl

-- The last struct gets another successor: what it does to the list, and what it leaves.
set_next_of-last :
    (st : Store) (front behind v : Option ℕ) (p : ℕ) (ps : List ℕ)
    → IsUnique (p ∷ ps)
    → IsLinked st front (p ∷ ps) behind
    → Returns
        (λ st'. IsLinked st' front (p ∷ ps) v × ((q : ℕ) → IsOut q (p ∷ ps) → st' q ≡ st q))
        (set_next_of (last_or (some p) ps) v st)
unfolding set_next
set_next_of-last st front behind v p [] unique h =
    rw (h.0) (returns ((put_struct_same p (record { next = v; prev = front }) st, tt), others))
  where
    others :
        (q : ℕ) → IsOut q (p ∷ []) → put_struct p (record { next = v; prev = front }) st q ≡ st q
    others q out = let away : (q == p) ≡ false = ground (arith, out.0) in rw away refl
set_next_of-last st front behind v p (q ∷ ps) unique h =
    Returns-map (set_next_of-last st (some p) behind v q ps unique.1 h.1)
      λ st' k. ((k.1 p unique.0 ∙ h.0, k.0), λ r out. k.1 r out.1)

pub set_next_of-IsLinked :
    (st : Store) (behind v : Option ℕ) (ps : List ℕ)
    → IsUnique ps
    → IsLinked st none ps behind
    → Returns
        (λ st'. IsLinked st' none ps v × ((q : ℕ) → IsOut q ps → st' q ≡ st q))
        (set_next_of (last_or none ps) v st)
set_next_of-IsLinked st behind v [] unique h = returns (tt, λ q out. refl)
set_next_of-IsLinked st behind v (p ∷ ps) unique h = set_next_of-last st none behind v p ps unique h

-- the same for the predecessor of the first
pub set_prev_of-IsLinked :
    (st : Store) (front v : Option ℕ) (ps : List ℕ)
    → IsUnique ps
    → IsLinked st front ps none
    → Returns
        (λ st'. IsLinked st' v ps none × ((q : ℕ) → IsOut q ps → st' q ≡ st q))
        (set_prev_of (first_or ps none) v st)
unfolding set_prev
set_prev_of-IsLinked st front v [] unique h = returns (tt, λ q out. refl)
set_prev_of-IsLinked st front v (p ∷ ps) unique h = rw (h.0) (
    returns (
      (
        put_struct_same p l st,
        IsLinked-same st (put_struct p l st) (some p) none ps
            (put_struct-IsSameOn p l st ps unique.0) h.1,
      ),
      others,
    ))
  where
    l : Links
    l = record { next = first_or ps none; prev = v }

    others : (q : ℕ) → IsOut q (p ∷ ps) → put_struct p l st q ≡ st q
    others q out = let away : (q == p) ≡ false = ground (arith, out.0) in rw away refl

IsOut-parts :
    (r : ℕ) (ps : List ℕ) (p : ℕ) (qs : List ℕ)
    → IsOut r (ps ++ p ∷ qs)
    → IsOut r ps × ((p == r) ≡ false) × IsOut r qs
IsOut-parts r [] p qs h = (tt, h.0, h.1)
IsOut-parts r (q ∷ ps) p qs h =
    let later = IsOut-parts r ps p qs h.1 in ((h.0, later.0), later.1, later.2)

IsOut-nil : (qs : List ℕ) → All (λ q. IsOut q []) qs
IsOut-nil [] = tt
IsOut-nil (q ∷ qs) = (tt, IsOut-nil qs)

IsOut-cons :
    (r : ℕ) (ps qs : List ℕ)
    → IsOut r qs
    → All (λ q. IsOut q ps) qs
    → All (λ q. IsOut q (r ∷ ps)) qs
IsOut-cons r ps [] h k = tt
IsOut-cons r ps (q ∷ qs) h k =
    let away : (r == q) ≡ false = ground (arith, h.0) in ((away, k.0), IsOut-cons r ps qs h.1 k.1)

-- around `p`, in a list without repetitions
pub record Around (ps : List ℕ) (p : ℕ) (qs : List ℕ) : Type 0 where
  pub before : IsUnique ps
  pub after : IsUnique qs
  pub apart : All (λ q. IsOut q qs) ps
  pub apart' : All (λ q. IsOut q ps) qs

pub IsUnique-Around : (ps : List ℕ) (p : ℕ) (qs : List ℕ) → IsUnique (ps ++ p ∷ qs) → Around ps p qs
IsUnique-Around [] p qs u = record { before = tt; after = u.1; apart = tt; apart' = IsOut-nil qs }
IsUnique-Around (r ∷ ps) p qs u =
    let later = IsUnique-Around ps p qs u.1 in
    let first = IsOut-parts r ps p qs u.0 in
    record {
      before = (first.0, later.before);
      after = later.after;
      apart = (first.2, later.apart);
      apart' = IsOut-cons r ps qs first.2 later.apart';
    }

-- what is written elsewhere leaves the structs of a list
pub IsSameOn-out :
    (st st' : Store) (ps qs : List ℕ)
    → ((q : ℕ) → IsOut q ps → st' q ≡ st q)
    → All (λ q. IsOut q ps) qs
    → IsSameOn st st' qs
IsSameOn-out st st' ps [] frame h = tt
IsSameOn-out st st' ps (q ∷ qs) frame h = (frame q h.0, IsSameOn-out st st' ps qs frame h.1)
