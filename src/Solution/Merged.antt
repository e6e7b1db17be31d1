-- ===== src/Solution/Merged.antt =====
-- The merge prints every number in front of which no INT_MAX stands.
use iu_sp.Base.{
  ℕ, zero, suc, ◌+◌, ◌<◌, ◌≡◌, refl, sym, ap, ◌∙◌, subst, ◌⊎◌, inl, inr, Option, none, some, List,
  [], ◌∷◌, ◌++◌, arith, length, get_elem?, set, Returns, returns, Returns-bind, All, Bool-cases,
  length-append,
}
use mathlib.Core.List.{Perm, perm_middle}
use mathlib.Core.List.Perm
use iu_sp.Int.{ℤ, ltb_ℤ, ◌≤ℤ◌, ltb_ℤ→≥ℤ}
use iu_sp.Solution.Merge.{int_max, scan, advance, merge_loop, flatten, merge}

-- an array that is empty, or begins with nothing below `low`
abbrev pub IsAbove : ℤ → List ℤ → Type 0
IsAbove low [] = Unit
IsAbove low (x ∷ rest) = low ≤ℤ x

-- the search keeps what it had, or finds the head of an array
pub data Scanned (i : ℕ) (rests : List (List ℤ)) (best : ℤ × Option ℕ) : ℤ × Option ℕ → Type 0 where
  kept : All (IsAbove best.0) rests → Scanned i rests best best
  found :
      (k : ℕ) (value : ℤ) (rest : List ℤ)
      → get_elem? rests k ≡ some (value ∷ rest)
      → Scanned i rests best (value, some (i + k))

shift :
    {i : ℕ} {rests : List (List ℤ)} {r : List ℤ} {best now : ℤ × Option ℕ}
    → IsAbove best.0 r
    → Scanned (suc i) rests best now
    → Scanned i (r ∷ rests) best now
shift h (kept all) = kept (h, all)
shift {i} {rests} {r} {best} h (found k value rest e) =
    subst (λ n. Scanned i (r ∷ rests) best (value, some n)) (add i k) (found (suc k) value rest e)
  where
    add : (i k : ℕ) → i + suc k ≡ suc i + k
    add i k = omega arith

retaken :
    {i : ℕ} {rests : List (List ℤ)} {v : ℤ} {rest : List ℤ} {best now : ℤ × Option ℕ}
    → Scanned (suc i) rests (v, some i) now
    → Scanned i ((v ∷ rest) ∷ rests) best now
retaken {i} {rests} {v} {rest} {best} (kept all) =
    subst (λ n. Scanned i ((v ∷ rest) ∷ rests) best (v, some n)) (add i) (found 0 v rest refl)
  where
    add : (i : ℕ) → i + 0 ≡ i
    add i = omega arith
retaken {i} {rests} {v} {rest = r} {best} (found k value rest e) =
    subst (λ n. Scanned i ((v ∷ r) ∷ rests) best (value, some n)) (add i k)
      (found (suc k) value rest e)
  where
    add : (i k : ℕ) → i + suc k ≡ suc i + k
    add i k = omega arith

scan-Scanned :
    (i : ℕ) (rests : List (List ℤ)) (best : ℤ × Option ℕ) → Scanned i rests best (scan i rests best)
unfolding scan
scan-Scanned i [] best = kept tt
scan-Scanned i ([] ∷ rests) best = shift tt (scan-Scanned (suc i) rests best)
scan-Scanned i ((v ∷ rest) ∷ rests) best = elim (Bool-cases (ltb_ℤ v best.0)) [
  | inl less ↦ rw less (retaken (scan-Scanned (suc i) rests (v, some i)))
  | inr more ↦ rw more (shift (ltb_ℤ→≥ℤ v best.0 more) (scan-Scanned (suc i) rests best))
]

-- one number taken from the head of an array
flatten-set :
    (rests : List (List ℤ)) (k : ℕ) {value : ℤ} {rest : List ℤ}
    → get_elem? rests k ≡ some (value ∷ rest)
    → Perm (value ∷ flatten (set rests k rest)) (flatten rests)
flatten-set [] k e = cc
flatten-set (r ∷ rests) zero {value} {rest} e =
    let same : r ≡ value ∷ rest = cc in rw same (Perm.refl (value ∷ rest ++ flatten rests))
flatten-set (r ∷ rests) (suc k) {value} {rest} e =
    Perm.trans (Perm.symm (perm_middle r (flatten (set rests k rest))))
      (Perm.append_left r (flatten-set rests k e))

pub length-flatten-set :
    (rests : List (List ℤ)) (k : ℕ) {value : ℤ} {rest : List ℤ}
    → get_elem? rests k ≡ some (value ∷ rest)
    → length (flatten rests) ≡ suc (length (flatten (set rests k rest)))
length-flatten-set [] k e = cc
length-flatten-set (r ∷ rests) zero {value} {rest} e =
    let same : r ≡ value ∷ rest = cc in rw same refl
length-flatten-set (r ∷ rests) (suc k) {value} {rest} e = omega (
  arith,
  length-append r (flatten rests),
  length-append r (flatten (set rests k rest)),
  length-flatten-set rests k e,
)

-- the search from the beginning, as equations
pub scan-cases :
    (rests : List (List ℤ))
    → ((scan 0 rests (int_max, none) ≡ (int_max, none)) × All (IsAbove int_max) rests)
      ⊎ ((k : ℕ) × (value : ℤ) × (rest : List ℤ) × (scan 0 rests (int_max, none) ≡ (value, some k))
          × (get_elem? rests k ≡ some (value ∷ rest)))
scan-cases rests = go (scan-Scanned 0 rests (int_max, none)) refl
  where
    Best : Type 0
    Best = ℤ × Option ℕ

    go :
        {best : Best}
        → Scanned 0 rests (int_max, none) best
        → scan 0 rests (int_max, none) ≡ best
        → ((scan 0 rests (int_max, none) ≡ (int_max, none)) × All (IsAbove int_max) rests)
          ⊎ ((k : ℕ) × (value : ℤ) × (rest : List ℤ) × (scan 0 rests (int_max, none)
                ≡ (value, some k))
              × (get_elem? rests k ≡ some (value ∷ rest)))
    go (kept all) e = inl (e, all)
    go (found k value rest at) e = inr (k, value, rest, e ∙ ap (λ n. (value, some n)) (add k), at)
      where
        add : (k : ℕ) → 0 + k ≡ k
        add k = omega arith

merge_loop-Perm :
    (fuel : ℕ) (rests : List (List ℤ))
    → length (flatten rests) < fuel
    → Returns
        (λ r. Perm (r.0 ++ flatten r.1) (flatten rests) × All (IsAbove int_max) r.1)
        (merge_loop fuel rests)
unfolding merge_loop advance
merge_loop-Perm zero rests enough = absurd (omega arith)
merge_loop-Perm (suc fuel) rests enough = elim (scan-cases rests) [
  | inl (e, all) ↦ rw (e, merge_loop) (returns (Perm.refl (flatten rests), all))
  | inr (k, value, rest, e, at) ↦
      rw (e, merge_loop, at)
        (Returns-bind
          (merge_loop-Perm fuel (set rests k rest) (omega (arith, length-flatten-set rests k at)))
          λ r p. returns (
            subst (λ v. Perm (v ∷ (r.0 ++ flatten r.1)) (flatten rests))
                (sym (ap (λ (b : ℤ × Option ℕ). b.0) e))
                (Perm.trans (Perm.cons value p.0) (flatten-set rests k at)),
            p.1,
          ))
]

-- The merge ends for any arrays. What it prints, with what it leaves, is the numbers of all arrays in
-- some order, and an array that it does not empty has INT_MAX in front of what is left.
pub merge-Perm :
    (arrays : List (List ℤ))
    → Returns
        (λ r. Perm (r.0 ++ flatten r.1) (flatten arrays) × All (IsAbove int_max) r.1)
        (merge arrays)
unfolding merge
merge-Perm arrays = merge_loop-Perm (suc (length (flatten arrays))) arrays (omega arith)
