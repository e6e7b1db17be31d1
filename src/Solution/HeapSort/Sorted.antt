-- ===== src/Solution/HeapSort/Sorted.antt =====
-- `heap_sort` sorts, whatever the clock says and however often it yields.
use iu_sp.Base.{
  ℕ, zero, suc, ◌+◌, ◌-◌, ◌/◌, ◌^◌, ◌≤◌, ◌<◌, ◌≡◌, refl, sym, subst, Bool-cases, ltb, ltb→lt,
  ltb→le, inl, inr, List, arith, length, Returns, returns, Returns-bind, Returns-map, if◌then◌else◌,
  ◌==◌,
}
use mathlib.Core.List.{Perm}
use mathlib.Core.List.Perm
use iu_sp.Int.{ℤ, ◌≤ℤ◌}
use iu_sp.IntArray.{entry, swapped, swap-swapped, entry-swapped, length-swapped, swapped-Perm}
use iu_sp.Solution.Timer.{Timer}
use iu_sp.Solution.HeapSort.{build_loop, sort_loop, heap_sort}
use iu_sp.Solution.HeapSort.Order.{parent, IsHeapFrom, IsSifting, root_largest}
use iu_sp.Solution.HeapSort.Sift.{Sifted, sift-Sifted}

-- entries do not fall from one index to a later one
abbrev pub IsSorted : List ℤ → Type 0
IsSorted a = (p q : ℕ) → p ≤ q → q < length a → entry a p ≤ℤ entry a q

-- the same, where the later index is `n` at least
abbrev IsSortedFrom : ℕ → List ℤ → Type 0
IsSortedFrom n a = (p q : ℕ) → p ≤ q → n ≤ q → q < length a → entry a p ≤ℤ entry a q

abbrev pub IsHeap : List ℤ → Type 0
IsHeap a = IsHeapFrom 0 (length a) a

module _ (get_now : ℕ → ℕ) (quantum : ℕ) where
  -- The first loop makes a heap of the array.
  build_loop-IsHeap :
      (i : ℕ) (a : List ℤ) (t : Timer)
      → i ≤ length a / 2
      → length a < 2 ^ 30
      → IsHeapFrom i (length a) a
      → Returns
          (λ r. IsHeap r.0 × Perm r.0 a × (length r.0 ≡ length a))
          (build_loop get_now quantum i a (length a) t)
  unfolding build_loop
  build_loop-IsHeap zero a t le small h = returns (h, Perm.refl a, refl)
  build_loop-IsHeap (suc i) a t le small h =
      Returns-bind (sift-Sifted get_now quantum (length a + 1) a i t start (omega arith)) λ r s.
        let ih =
          build_loop-IsHeap i r.0 r.1 (omega (arith, s.size)) (omega (arith, s.size))
            (rw (s.size) (s.heap)) in
        Returns-map (rw (s.size) at ih)
          λ c w. (w.0, Perm.trans w.1 s.perm, omega (arith, w.2, s.size))
    where
      start : IsSifting i (length a) a i
      start = record {
        fits = omega arith;
        small = small;
        inside = omega arith;
        above = omega arith;
        edges = λ c pos lt up other. h c pos lt (omega arith);
        bridged = λ c pos lt e ipos up. absurd (omega arith);
      }

  module _ (i : ℕ) (a : List ℤ) (lt : suc i < length a) (small : length a < 2 ^ 30)
      (h : IsHeapFrom 0 (suc (suc i)) a) where
    at :
        (k : ℕ)
        → entry (swapped a 0 (suc i)) k
          ≡ (if suc i == k then entry a 0 else if 0 == k then entry a (suc i) else entry a k)
    at = entry-swapped a 0 (suc i) (omega arith) lt

    size : length (swapped a 0 (suc i)) ≡ length a
    size = length-swapped a 0 (suc i) (omega arith) lt

    start : IsSifting 0 (suc i) (swapped a 0 (suc i)) 0
    start = record {
      fits = omega (arith, size);
      small = omega arith;
      inside = omega arith;
      above = omega arith;
      edges = λ c pos below up other. ground (arith, at c, at (parent c), h c);
      bridged = λ c pos below e zpos up. absurd (omega arith);
    }

    -- The largest entry has gone to the end of the heap, in front of the sorted entries.
    extend :
        IsSortedFrom (suc (suc i)) a
        → (b : List ℤ) → Sifted 0 (suc i) (swapped a 0 (suc i)) b
        → IsSortedFrom (suc i) b
    extend sorted b s p q le from below =
        subst (λ y. entry b p ≤ℤ y) (sym (s.beyond q from))
          (elim (Bool-cases (ltb p (suc i))) [
            | inl front ↦
                s.bounded (entry (swapped a 0 (suc i)) q) (before q from inside) p
                  (ltb→lt _ _ front)
            | inr back ↦
                let ge = ltb→le _ _ back in
                subst (λ x. x ≤ℤ entry (swapped a 0 (suc i)) q) (sym (s.beyond p ge))
                  (after p q ge le inside)
          ])
      where
        inside : q < length a
        inside = omega (arith, size, s.size)

        before :
            (q : ℕ)
            → suc i ≤ q
            → q < length a
            → (p : ℕ) → p < suc i
            → entry (swapped a 0 (suc i)) p ≤ℤ entry (swapped a 0 (suc i)) q
        before q from inside p front = ground (
          arith,
          at p,
          at q,
          root_largest (suc (suc i)) a p h,
          root_largest (suc (suc i)) a (suc i) h,
          sorted p q,
          sorted (suc i) q,
        )

        after :
            (p q : ℕ)
            → suc i ≤ p
            → p ≤ q
            → q < length a
            → entry (swapped a 0 (suc i)) p ≤ℤ entry (swapped a 0 (suc i)) q
        after p q ge le inside = ground (arith, at p, at q, sorted p q, sorted 0 q)

  -- The second loop sorts a heap, given that what lies behind it is sorted and not smaller.
  sort_loop-IsSorted :
      (i : ℕ) (a : List ℤ) (t : Timer)
      → i < length a
      → length a < 2 ^ 30
      → IsHeapFrom 0 (suc i) a
      → IsSortedFrom (suc i) a
      → Returns (λ r. IsSorted r.0 × Perm r.0 a) (sort_loop get_now quantum i a t)
  unfolding sort_loop
  sort_loop-IsSorted zero a t lt small h sorted = returns (whole, Perm.refl a)
    where
      whole : IsSorted a
      whole p zero le below = let e : p ≡ 0 = omega arith in rw e (omega arith)
      whole p (suc q) le below = sorted p (suc q) le (omega arith) below
  sort_loop-IsSorted (suc i) a t lt small h sorted =
      rw (swap-swapped a 0 (suc i) (omega arith) lt) (
        Returns-bind
          (sift-Sifted get_now quantum (suc i + 1) (swapped a 0 (suc i)) 0 t (start i a lt small h)
            (omega arith))
          λ r s.
            Returns-map
              (sort_loop-IsSorted i r.0 r.1 (omega (arith, s.size, size i a lt small h))
                (omega (arith, s.size, size i a lt small h)) s.heap
                (extend i a lt small h sorted r.0 s))
              λ c w. (
                w.0,
                Perm.trans w.1 (Perm.trans s.perm (swapped-Perm a 0 (suc i) (omega arith) lt)),
              ))

  -- `heap_sort` ends on every array of fewer than 2 ^ 30 entries with the same entries in ascending
  -- order, for every clock, every quantum and every state of the timer.
  pub heap_sort-IsSorted :
      (a : List ℤ) (t : Timer)
      → length a < 2 ^ 30
      → Returns (λ r. IsSorted r.0 × Perm r.0 a) (heap_sort get_now quantum a t)
  unfolding heap_sort sort_loop
  heap_sort-IsSorted a t small =
      Returns-bind
        (build_loop-IsHeap (length a / 2) a t (omega arith) small
          λ c pos lt up. absurd (omega arith))
        λ r h.
          Returns-map (second (length a) r.0 r.1 h.0 (omega (arith, h.2)) h.2)
            λ c w. (w.0, Perm.trans w.1 h.1)
    where
      second :
          (n : ℕ) (b : List ℤ) (u : Timer)
          → IsHeap b
          → length b < 2 ^ 30
          → length b ≡ n
          → Returns (λ r. IsSorted r.0 × Perm r.0 b) (sort_loop get_now quantum (n - 1) b u)
      second zero b u h small' e =
          subst (λ k. Returns (λ r. IsSorted r.0 × Perm r.0 b) (sort_loop get_now quantum k b u))
            zero-sub (returns (λ p q le lt. absurd (omega arith), Perm.refl b))
        where
          zero-sub : 0 ≡ 0 - 1
          zero-sub = omega arith
      second (suc n) b u h small' e =
          subst (λ k. Returns (λ r. IsSorted r.0 × Perm r.0 b) (sort_loop get_now quantum k b u))
            suc-sub
            (sort_loop-IsSorted n b u (omega arith) small' (λ c pos lt up. h c pos (omega arith) up)
              λ p q le from lt. absurd (omega arith))
        where
          suc-sub : n ≡ suc n - 1
          suc-sub = omega arith
