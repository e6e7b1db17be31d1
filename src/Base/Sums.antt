-- ===== src/Base/Sums.antt =====
-- The sum of a weight over a list, and what a write to the list does to it.
use mathlib.Core.Path.{◌≡◌, refl}
use mathlib.Core.Option.{some}
use mathlib.Core.List.{List, [], ◌∷◌, ◌++◌}
use Prim.Native.Nat.{ℕ, zero, suc, ◌+◌, ◌≤◌}
use native.Mathlib.Omega.{arith}
use iu_sp.Base.Lists.{get_elem?, set}

unfoldable pub total {ℓ} : {A : Type ℓ} → (A → ℕ) → List A → ℕ
total w [] = 0
total w (x ∷ xs) = w x + total w xs

module _ {ℓ} {A : Type ℓ} (w : A → ℕ) where
  pub total-set :
      (xs : List A) (i : ℕ) (v : A) {u : A}
      → get_elem? xs i ≡ some u
      → total w (set xs i v) + w u ≡ total w xs + w v
  unfolding total
  total-set [] i v e = cc
  total-set (x ∷ xs) zero v {u} e = ground arith
  total-set (x ∷ xs) (suc i) v {u} e = omega (arith, total-set xs i v e)

  pub total-append : (xs ys : List A) → total w (xs ++ ys) ≡ total w xs + total w ys
  unfolding total
  total-append [] ys = omega arith
  total-append (x ∷ xs) ys = omega (arith, total-append xs ys)

  pub le-total : (xs : List A) (i : ℕ) {u : A} → get_elem? xs i ≡ some u → w u ≤ total w xs
  unfolding total
  le-total [] i e = cc
  le-total (x ∷ xs) zero e = ground arith
  le-total (x ∷ xs) (suc i) e = omega (arith, le-total xs i e)

  pub total-eq-zero :
      (xs : List A) → ((i : ℕ) (u : A) → get_elem? xs i ≡ some u → w u ≡ 0) → total w xs ≡ 0
  unfolding total
  total-eq-zero [] h = refl
  total-eq-zero (x ∷ xs) h = omega (arith, h 0 x refl, total-eq-zero xs (λ i u. h (suc i) u))
