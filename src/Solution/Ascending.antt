-- ===== src/Solution/Ascending.antt =====
-- The merge of sorted arrays prints its numbers in order.
use iu_sp.Base.{
  ℕ, zero, suc, ◌<◌, ◌≡◌, sym, ap, subst, inl, inr, Option, none, some, List, [], ◌∷◌, arith,
  length, get_elem?, set, Returns, returns, Returns-bind, Returns-map, All, All-set, All-get_elem?,
  Bool-cases, if◌then◌else◌,
}
use iu_sp.Int.{ℤ, ltb_ℤ, ◌≤ℤ◌, ltb_ℤ→≤ℤ, ltb_ℤ→≥ℤ, ≤ℤ_trans}
use iu_sp.IntArray.{entry}
use iu_sp.Solution.Merge.{int_max, scan, advance, merge_loop, flatten, merge}
use iu_sp.Solution.Merged.{IsAbove, scan-cases, length-flatten-set}
use iu_sp.Solution.HeapSort.Sorted.{IsSorted}

-- each number is at most those behind it
abbrev pub IsAscending : List ℤ → Type 0
IsAscending [] = Unit
IsAscending (x ∷ xs) = All (λ y. x ≤ℤ y) xs × IsAscending xs

All-weaken :
    {A : Type 0} {P Q : A → Type 0} (xs : List A) → ((x : A) → P x → Q x) → All P xs → All Q xs
All-weaken [] f h = tt
All-weaken (x ∷ xs) f h = (f x h.0, All-weaken xs f h.1)

All-entries : (P : ℤ → Type 0) (xs : List ℤ) → ((i : ℕ) → i < length xs → P (entry xs i)) → All P xs
unfolding entry
All-entries P [] f = tt
All-entries P (x ∷ xs) f = (f 0 (omega arith), All-entries P xs (λ i h. f (suc i) (omega arith)))

All-entry : (P : ℤ → Type 0) (xs : List ℤ) (i : ℕ) → All P xs → i < length xs → P (entry xs i)
unfolding entry
All-entry P [] i h lt = absurd (omega arith)
All-entry P (x ∷ xs) zero h lt = h.0
All-entry P (x ∷ xs) (suc i) h lt = All-entry P xs i h.1 (omega arith)

IsSorted→IsAscending : (xs : List ℤ) → IsSorted xs → IsAscending xs
unfolding entry
IsSorted→IsAscending [] h = tt
IsSorted→IsAscending (x ∷ xs) h = (
  All-entries (λ y. x ≤ℤ y) xs (λ i lt. h 0 (suc i) (omega arith) (omega arith)),
  IsSorted→IsAscending xs (λ p q le lt. h (suc p) (suc q) (omega arith) (omega arith)),
)

pub IsAscending→IsSorted : (xs : List ℤ) → IsAscending xs → IsSorted xs
unfolding entry
IsAscending→IsSorted [] h p q le lt = absurd (omega arith)
IsAscending→IsSorted (x ∷ xs) h zero zero le lt = omega arith
IsAscending→IsSorted (x ∷ xs) h zero (suc q) le lt = All-entry (λ y. x ≤ℤ y) xs q h.0 (omega arith)
IsAscending→IsSorted (x ∷ xs) h (suc p) zero le lt = absurd (omega arith)
IsAscending→IsSorted (x ∷ xs) h (suc p) (suc q) le lt =
    IsAscending→IsSorted xs h.1 p q (omega arith) (omega arith)

IsAbove-trans : (low value : ℤ) (xs : List ℤ) → low ≤ℤ value → IsAbove value xs → IsAbove low xs
IsAbove-trans low value [] le h = tt
IsAbove-trans low value (x ∷ xs) le h = ≤ℤ_trans low value x le h

lower :
    (v : ℤ) (best : ℤ × Option ℕ) (k : Option ℕ)
    → ((if ltb_ℤ v best.0 then (v, k) else best).0 ≤ℤ best.0)
      × ((if ltb_ℤ v best.0 then (v, k) else best).0 ≤ℤ v)
lower v best k = elim (Bool-cases (ltb_ℤ v best.0)) [
  | inl less ↦ rw less (ltb_ℤ→≤ℤ v best.0 less, omega arith)
  | inr more ↦ rw more (omega arith, ltb_ℤ→≥ℤ v best.0 more)
]

-- The search finds nothing that is greater than the head of an array.
scan-least :
    (i : ℕ) (rests : List (List ℤ)) (best : ℤ × Option ℕ)
    → ((scan i rests best).0 ≤ℤ best.0) × All (IsAbove (scan i rests best).0) rests
unfolding scan
scan-least i [] best = (omega arith, tt)
scan-least i ([] ∷ rests) best =
    let later = scan-least (suc i) rests best in (later.0, (tt, later.1))
scan-least i ((v ∷ rest) ∷ rests) best =
    let now = if ltb_ℤ v best.0 then (v, some i) else best in
    let least = lower v best (some i) in
    let later = scan-least (suc i) rests now in
    (≤ℤ_trans _ now.0 best.0 later.0 least.0, (≤ℤ_trans _ now.0 v later.0 least.1, later.1))

-- every number of an ascending array is at least what its head is
above-All : (low : ℤ) (xs : List ℤ) → IsAscending xs → IsAbove low xs → All (λ y. low ≤ℤ y) xs
above-All low [] a h = tt
above-All low (x ∷ xs) a h = (h, All-weaken xs (λ y le. ≤ℤ_trans low x y h le) a.0)

-- arrays in order, with no number below `low`
abbrev IsFrom : ℤ → List (List ℤ) → Type 0
IsFrom low rests = All IsAscending rests × All (λ r. All (λ y. low ≤ℤ y) r) rests

IsFrom-heads :
    (low : ℤ) (rests : List (List ℤ))
    → All IsAscending rests
    → All (IsAbove low) rests
    → IsFrom low rests
IsFrom-heads low [] a h = (tt, tt)
IsFrom-heads low (r ∷ rests) a h =
    let later = IsFrom-heads low rests a.1 h.1 in (a, (above-All low r a.0 h.0, later.1))

-- the arrays after the round that takes `value` from array `k`
advanced :
    (value : ℤ) (rest : List ℤ) (rests : List (List ℤ)) (k : ℕ)
    → All IsAscending rests
    → All (IsAbove value) rests
    → get_elem? rests k ≡ some (value ∷ rest)
    → IsFrom value (set rests k rest)
advanced value rest rests k a h at =
    let here = All-get_elem? IsAscending rests k a at in
    let low = IsFrom-heads value rests a h in
    (
      All-set IsAscending rests k rest a here.1,
      All-set (All (λ y. value ≤ℤ y)) rests k rest low.1 here.0,
    )

merge_loop-IsAscending :
    (fuel : ℕ) (rests : List (List ℤ))
    → length (flatten rests) < fuel
    → All IsAscending rests
    → Returns
        (λ r.
          IsAscending r.0
          × ((low : ℤ) → All (λ xs. All (λ y. low ≤ℤ y) xs) rests → All (λ y. low ≤ℤ y) r.0))
        (merge_loop fuel rests)
unfolding merge_loop advance
merge_loop-IsAscending zero rests enough sorted = absurd (omega arith)
merge_loop-IsAscending (suc fuel) rests enough sorted = elim (scan-cases rests) [
  | inl (e, all) ↦ rw (e, merge_loop) (returns (tt, λ low from. tt))
  | inr (k, value, rest, e, at) ↦
      let same = ap (λ (b : ℤ × Option ℕ). b.0) e in
      let least =
        subst (λ (v : ℤ). All (IsAbove v) rests) same (scan-least 0 rests (int_max, none)).1 in
      let next = advanced value rest rests k sorted least at in
      rw (e, merge_loop, at)
        (Returns-bind
          (merge_loop-IsAscending fuel (set rests k rest)
            (omega (arith, length-flatten-set rests k at)) next.0)
          λ r p.
            let behind = p.1 value next.1 in
            returns (
              subst
                (λ (v : ℤ).
                  IsAscending (v ∷ r.0)
                  × ((low : ℤ)
                      → All (λ xs. All (λ y. low ≤ℤ y) xs) rests
                      → All (λ y. low ≤ℤ y) (v ∷ r.0)))
                (sym same)
                (
                  (behind, p.0),
                  λ low from.
                      let first =
                        (All-get_elem? (λ xs. All (λ y. low ≤ℤ y) xs) rests k from at).0 in
                      (first, All-weaken r.0 (λ y le. ≤ℤ_trans low value y first le) behind),
                )))
]

-- The merge of sorted arrays ends, and what it prints is sorted.
pub merge-IsSorted :
    (arrays : List (List ℤ)) → All IsSorted arrays → Returns (λ r. IsSorted r.0) (merge arrays)
unfolding merge
merge-IsSorted arrays sorted =
    Returns-map
      (merge_loop-IsAscending (suc (length (flatten arrays))) arrays (omega arith)
        (All-weaken arrays IsSorted→IsAscending sorted))
      λ r p. IsAscending→IsSorted r.0 p.0
