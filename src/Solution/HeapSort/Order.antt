-- ===== src/Solution/HeapSort/Order.antt =====
-- The heap order, with the largest entry at the root.
use iu_sp.Base.{
  ℕ, zero, suc, ◌+◌, ◌-◌, ◌*◌, ◌/◌, ◌^◌, ◌≤◌, ◌<◌, ◌≡◌, ◌≢◌, refl, sym, subst, eqb→eq, List, arith,
  length, Bool-cases, true, ltb, inl, inr, ◌==◌, ltb→lt, ltb→le, Returns, returns, Returns-if,
  Returns-bind, Returns-map,
}
use iu_sp.Int.{ℤ, ◌≤ℤ◌, ltb_ℤ, ltb_ℤ→≤ℤ, ltb_ℤ→≥ℤ, ≤ℤ_trans}
use iu_sp.IntArray.{entry, load-entry}
use iu_sp.Solution.HeapSort.{larger, largest_of}

abbrev pub parent : ℕ → ℕ
parent c = (c - 1) / 2

-- every edge below `bound` whose parent is at `lo` or later is in order
abbrev pub IsHeapFrom : ℕ → ℕ → List ℤ → Type 0
IsHeapFrom lo bound a =
    (c : ℕ) → 0 < c → c < bound → lo ≤ parent c → entry a c ≤ℤ entry a (parent c)

-- the same, but for the edges down from `j`, past which the order holds
pub record IsSifting (lo bound : ℕ) (a : List ℤ) (j : ℕ) : Type 0 where
  pub fits : bound ≤ length a
  pub small : bound < 2 ^ 30
  pub inside : j < bound
  pub above : lo ≤ j
  pub edges :
      (c : ℕ) → 0 < c → c < bound → lo ≤ parent c → parent c ≢ j → entry a c ≤ℤ entry a (parent c)
  pub bridged :
      (c : ℕ)
      → 0 < c
      → c < bound
      → parent c ≡ j
      → 0 < j
      → lo ≤ parent j
      → entry a c ≤ℤ entry a (parent j)

-- `m` is `j` or a child of it, and no entry among these is larger than that at `m`
pub record IsLargest (bound : ℕ) (a : List ℤ) (j m : ℕ) : Type 0 where
  pub below : m < bound
  pub near : m ≢ j → (0 < m) × (parent m ≡ j)
  pub self : entry a j ≤ℤ entry a m
  pub left : 2 * j + 1 < bound → entry a (2 * j + 1) ≤ℤ entry a m
  pub right : 2 * j + 2 < bound → entry a (2 * j + 2) ≤ℤ entry a m

larger_lem :
    (a : List ℤ) (bound child m : ℕ)
    → bound ≤ length a
    → m < bound
    → Returns
        (λ r.
          (r < bound)
          × (r ≢ m → r ≡ child)
          × (entry a m ≤ℤ entry a r)
          × (child < bound → entry a child ≤ℤ entry a r))
        (larger a bound child m)
unfolding larger
larger_lem a bound child m fits inside =
    Returns-if (ltb child bound)
      (λ there.
        let lt = ltb→lt _ _ there in
        rw (load-entry a child (omega arith), load-entry a m (omega arith))
          (elim (Bool-cases (ltb_ℤ (entry a m) (entry a child))) [
            | inl more ↦ rw more (
                returns
                  (lt, λ ne. refl, ltb_ℤ→≤ℤ (entry a m) (entry a child) more, λ _. omega arith))
            | inr less ↦ rw less (
                returns (
                  inside,
                  λ ne. absurd (ne refl),
                  omega arith,
                  λ _. ltb_ℤ→≥ℤ (entry a m) (entry a child) less,
                ))
          ]))
      λ gone.
        let le = ltb→le _ _ gone in
        returns (inside, λ ne. absurd (ne refl), omega arith, λ lt. absurd (omega arith))

-- The two tests of a round find the largest.
pub largest_of-IsLargest :
    (a : List ℤ) (bound j : ℕ)
    → bound ≤ length a
    → bound < 2 ^ 30
    → j < bound
    → Returns (IsLargest bound a j) (largest_of a bound j)
unfolding largest_of
largest_of-IsLargest a bound j fits small inside =
    let room : ltb (2 * j + 2) (2 ^ 31) ≡ true = ground (arith, small, inside) in
    rw room (
      Returns-bind (larger_lem a bound (2 * j + 1) j fits inside) λ l (lb, ln, ls, lc).
        Returns-map (larger_lem a bound (2 * j + 2) l fits lb) λ m (mb, mn, ms, mc). record {
          below = mb;
          near = λ ne. near l m ln mn ne;
          self = ≤ℤ_trans (entry a j) (entry a l) (entry a m) ls ms;
          left = λ lt. ≤ℤ_trans (entry a (2 * j + 1)) (entry a l) (entry a m) (lc lt) ms;
          right = mc;
        })
  where
    near :
        (l m : ℕ)
        → (l ≢ j → l ≡ 2 * j + 1)
        → (m ≢ l → m ≡ 2 * j + 2)
        → m ≢ j
        → (0 < m) × (parent m ≡ j)
    near l m ln mn ne = elim (Bool-cases (m == l)) [
      | inl same ↦
          let e : m ≡ l = ground arith in let f = ln (λ h. ne (ground arith)) in omega arith
      | inr other ↦ let f = mn (λ h. ground arith) in omega arith
    ]

-- Where the largest is `j` itself, the heap order holds everywhere.
pub IsHeapFrom-done :
    {lo bound j : ℕ} (a : List ℤ)
    → IsSifting lo bound a j
    → IsLargest bound a j j
    → IsHeapFrom lo bound a
IsHeapFrom-done {j} a s m c pos lt at = elim (Bool-cases (parent c == j)) [
  | inl here ↦
      let up : parent c ≡ j = eqb→eq _ _ here in
      subst (λ p. entry a c ≤ℤ entry a p) (sym up)
        (elim (Bool-cases (c == 2 * j + 1)) [
          | inl odd ↦
              let e : c ≡ 2 * j + 1 = eqb→eq _ _ odd in
              subst (λ d. entry a d ≤ℤ entry a j) (sym e) (m.left (omega arith))
          | inr even ↦
              let e : c ≡ 2 * j + 2 = ground arith in
              subst (λ d. entry a d ≤ℤ entry a j) (sym e) (m.right (omega arith))
        ])
  | inr there ↦ s.edges c pos lt at (ground arith)
]

root_below :
    (k bound : ℕ) (a : List ℤ) (c : ℕ)
    → IsHeapFrom 0 bound a
    → c < k
    → c < bound
    → entry a c ≤ℤ entry a 0
root_below zero bound a c h f lt = absurd (omega arith)
root_below (suc k) bound a zero h f lt = omega arith
root_below (suc k) bound a (suc c) h f lt =
    ≤ℤ_trans (entry a (suc c)) (entry a (parent (suc c))) (entry a 0)
      (h (suc c) (omega arith) lt (omega arith))
      (root_below k bound a (parent (suc c)) h (omega arith) (omega arith))

-- The root of a heap is its largest entry.
pub root_largest :
    (bound : ℕ) (a : List ℤ) (c : ℕ) → IsHeapFrom 0 bound a → c < bound → entry a c ≤ℤ entry a 0
root_largest bound a c h lt = root_below (suc c) bound a c h (omega arith) lt
