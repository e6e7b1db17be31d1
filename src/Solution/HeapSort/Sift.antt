-- ===== src/Solution/HeapSort/Sift.antt =====
-- The inner loop moves one entry down until the heap order holds, and keeps all entries.
use iu_sp.Base.{
  ℕ, zero, suc, ◌+◌, ◌*◌, ◌≤◌, ◌<◌, ◌≡◌, ◌≢◌, refl, subst, List, arith, length, Bool-cases, inl,
  inr, if◌then◌else◌, ◌==◌, eqb→eq, Returns, returns, Returns-if, Returns-bind, Returns-map,
}
use mathlib.Core.List.{Perm}
use mathlib.Core.List.Perm
use iu_sp.Int.{ℤ, ◌≤ℤ◌}
use iu_sp.IntArray.{entry, swapped, swap-swapped, entry-swapped, length-swapped, swapped-Perm}
use iu_sp.Solution.Timer.{Timer, yield_if_necessary}
use iu_sp.Solution.HeapSort.{sift}
use iu_sp.Solution.HeapSort.Order.{
  parent, IsHeapFrom, IsSifting, IsLargest, largest_of-IsLargest, IsHeapFrom-done,
}

-- `b` holds the entries of `a`: the same ones from `bound` on, and the others in heap order
pub record Sifted (lo bound : ℕ) (a b : List ℤ) : Type 0 where
  pub heap : IsHeapFrom lo bound b
  pub perm : Perm b a
  pub size : length b ≡ length a
  pub beyond : (p : ℕ) → bound ≤ p → entry b p ≡ entry a p
  pub bounded :
      (x : ℤ) → ((p : ℕ) → p < bound → entry a p ≤ℤ x) → (p : ℕ) → p < bound → entry b p ≤ℤ x

module _ {lo bound j m : ℕ} (a : List ℤ) (s : IsSifting lo bound a j) (l : IsLargest bound a j m)
    (ne : m ≢ j) where
  at :
      (k : ℕ)
      → entry (swapped a j m) k
        ≡ (if m == k then entry a j else if j == k then entry a m else entry a k)
  at k = entry-swapped a j m (omega (arith, s.fits, s.inside)) (omega (arith, s.fits, l.below)) k

  -- after the swap the loop goes on at the child
  IsSifting-swapped : IsSifting lo bound (swapped a j m) m
  IsSifting-swapped = record {
    fits = omega (
      arith,
      s.fits,
      length-swapped a j m (omega (arith, s.fits, s.inside)) (omega (arith, s.fits, l.below)),
    );
    small = s.small;
    inside = l.below;
    above = omega (arith, s.above, l.near ne);
    edges = λ c pos lt le other. edge c pos lt le other;
    bridged = λ c pos lt up mpos le.
        let (_, back) = l.near ne in ground (arith, at c, at (parent m), s.edges c);
  }
    where
      edge :
          (c : ℕ)
          → 0 < c
          → c < bound
          → lo ≤ parent c
          → parent c ≢ m
          → entry (swapped a j m) c ≤ℤ entry (swapped a j m) (parent c)
      edge c pos lt le other =
          let (mpos, back) = l.near ne in
          elim (Bool-cases (parent c == j)) [
            | inl here ↦
                let up : parent c ≡ j = eqb→eq _ _ here in
                elim (Bool-cases (c == m)) [
                  | inl moved ↦ ground (arith, at c, at (parent c), l.self)
                  | inr kept ↦ elim (Bool-cases (c == 2 * j + 1)) [
                    | inl odd ↦ ground (arith, at c, at (parent c), l.left)
                    | inr even ↦
                        let e : c ≡ 2 * j + 2 = ground arith in
                        ground (arith, at c, at (parent c), l.right)
                  ]
                ]
            | inr there ↦ ground (arith, at c, at (parent c), s.edges c, s.bridged m)
          ]

  -- what the rest of the loop keeps of the swapped array, it keeps of the array
  Sifted-swapped : {b : List ℤ} → Sifted lo bound (swapped a j m) b → Sifted lo bound a b
  Sifted-swapped r =
      let hj : j < length a = omega (arith, s.fits, s.inside) in
      let hm : m < length a = omega (arith, s.fits, l.below) in
      record {
        heap = r.heap;
        perm = Perm.trans r.perm (swapped-Perm a j m hj hm);
        size = omega (arith, r.size, length-swapped a j m hj hm);
        beyond = λ p le. ground (arith, r.beyond p, at p, s.inside, l.below);
        bounded = λ x h p lt.
            r.bounded x (λ q lt'. ground (arith, at q, h q, h j, h m, s.inside, l.below)) p lt;
      }

module _ (get_now : ℕ → ℕ) (quantum : ℕ) where
  -- With fuel for the places below `j`, the loop ends, with the heap order from `lo` on.
  pub sift-Sifted :
      (fuel : ℕ) {lo bound : ℕ} (a : List ℤ) (j : ℕ) (t : Timer)
      → IsSifting lo bound a j
      → bound ≤ j + fuel
      → Returns (λ r. Sifted lo bound a r.0) (sift get_now quantum fuel a bound j t)
  unfolding sift
  sift-Sifted zero a j t s enough = absurd (omega (arith, s.inside))
  sift-Sifted (suc fuel) {lo} {bound} a j t s enough =
      Returns-bind (largest_of-IsLargest a bound j s.fits s.small s.inside) λ m l.
        Returns-if (m == j)
          (λ same.
            let l' = subst (IsLargest bound a j) (eqb→eq _ _ same) l in
            returns (record {
              heap = IsHeapFrom-done a s l';
              perm = Perm.refl a;
              size = refl;
              beyond = λ p le. refl;
              bounded = λ x h. h;
            }))
          λ other.
            let ne : m ≢ j = ground arith in
            rw
              (swap-swapped a j m (omega (arith, s.fits, s.inside))
                (omega (arith, s.fits, l.below)))
              (Returns-map
                (sift-Sifted fuel (swapped a j m) m (yield_if_necessary get_now quantum t)
                  (IsSifting-swapped a s l ne) (omega (arith, l.near ne)))
                λ r. Sifted-swapped a s l ne)
