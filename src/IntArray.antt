-- ===== src/IntArray.antt =====
-- Arrays of C's `int` as lists of integers: reads, writes, swaps, and their laws.
use mathlib.Core.List.{Perm}
use mathlib.Core.List.Perm
use iu_sp.Base.{
  ℕ, zero, suc, ◌<◌, ◌≡◌, refl, ◌∙◌, subst, List, [], ◌∷◌, arith, ◌==◌, if◌then◌else◌, length,
  get_elem?, set, Run, ok, ◌>>=◌, or_fault, length-set,
}
use iu_sp.Int.{ℤ, pos}

-- `a[i]`, a fault out of range
unfoldable pub load : List ℤ → ℕ → Run ℤ
load a i = or_fault (get_elem? a i)

-- the entry at an index in range
unfoldable pub entry : List ℤ → ℕ → ℤ
entry [] i = pos 0
entry (x ∷ a) zero = x
entry (x ∷ a) (suc i) = entry a i

-- `tmp = a[i]; a[i] = a[j]; a[j] = tmp;`
unfoldable pub swap : List ℤ → ℕ → ℕ → Run (List ℤ)
swap a i j = load a i >>= λ tmp. load a j >>= λ y. ok (set (set a i y) j tmp)

abbrev pub swapped : List ℤ → ℕ → ℕ → List ℤ
swapped a i j = set (set a i (entry a j)) j (entry a i)

pub load-entry : (a : List ℤ) (i : ℕ) → i < length a → load a i ≡ ok (entry a i)
unfolding load entry
load-entry [] i h = absurd (omega arith)
load-entry (x ∷ a) zero h = refl
load-entry (x ∷ a) (suc i) h = load-entry a i (omega arith)

pub entry-set :
    (a : List ℤ) (i j : ℕ) (v : ℤ)
    → i < length a
    → entry (set a i v) j ≡ (if i == j then v else entry a j)
unfolding entry
entry-set [] i j v h = absurd (omega arith)
entry-set (x ∷ a) zero zero v h = refl
entry-set (x ∷ a) zero (suc j) v h = ground arith
entry-set (x ∷ a) (suc i) zero v h = ground arith
entry-set (x ∷ a) (suc i) (suc j) v h = entry-set a i j v (omega arith) ∙ ground arith

-- a write puts the new entry in the place of the old one
set-Perm : (a : List ℤ) (i : ℕ) (v : ℤ) → i < length a → Perm (entry a i ∷ set a i v) (v ∷ a)
unfolding entry
set-Perm [] i v h = absurd (omega arith)
set-Perm (x ∷ a) zero v h = Perm.swap v x a
set-Perm (x ∷ a) (suc i) v h =
    Perm.trans (Perm.swap x (entry a i) (set a i v))
      (Perm.trans (Perm.cons x (set-Perm a i v (omega arith))) (Perm.swap v x a))

module _ (a : List ℤ) (i j : ℕ) (hi : i < length a) (hj : j < length a) where
  pub swap-swapped : swap a i j ≡ ok (swapped a i j)
  unfolding swap
  swap-swapped = rw (load-entry a i hi, load-entry a j hj)

  pub entry-swapped :
      (k : ℕ)
      → entry (swapped a i j) k
        ≡ (if j == k then entry a i else if i == k then entry a j else entry a k)
  entry-swapped k = ground (
    arith,
    entry-set (set a i (entry a j)) j k (entry a i),
    entry-set a i k (entry a j) hi,
    length-set a i (entry a j),
  )

  pub length-swapped : length (swapped a i j) ≡ length a
  length-swapped = length-set (set a i (entry a j)) j (entry a i) ∙ length-set a i (entry a j)

  pub swapped-Perm : Perm (swapped a i j) a
  swapped-Perm =
      let b = set a i (entry a j) in
      let same : entry b j ≡ entry a j = ground (arith, entry-set a i j (entry a j) hi) in
      let second = set-Perm b j (entry a i) (rw length-set hj) in
      Perm.cons_inv (
        Perm.trans (subst (λ x. Perm (x ∷ set b j (entry a i)) (entry a i ∷ b)) same second)
          (set-Perm a i (entry a j) hi))
