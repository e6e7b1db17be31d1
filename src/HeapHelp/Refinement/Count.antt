-- ===== src/HeapHelp/Refinement/Count.antt =====
-- heaph_get_alloc_count against the live blocks.
use iu_sp.Base.{
  ℕ, suc, ◌+◌, ◌-◌, ◌%◌, ◌^◌, ◌<◌, ◌≡◌, ◌≢◌, refl, sym, ap, ◌∙◌, true, false, List, [], ◌∷◌, length,
  arith, ◌==◌, if◌then◌else◌, total, ok, ◌>>=◌, Option,
}
use iu_sp.Int.{ℤ, pos, pos_part, neg_part}
use iu_sp.HeapHelp.State.{Allocation, Ptr, Tracker, lock_allocs-ok, unlock_allocs, unlock_allocs-ok}
use iu_sp.HeapHelp.Invariant.{holds}
use iu_sp.HeapHelp.Tracking.Unlinking.{Unlinked, absent, present, unlink-Unlinked}
use iu_sp.HeapHelp.Spec.{Live, Implements}
use iu_sp.HeapHelp.Calls.{heaph_get_alloc_count}

-- how often an address stands in a list
abbrev pub count : Ptr → List Ptr → ℕ
count p ps = total (λ q. if q == p then 1 else 0) ps

total-one : (xs : List Allocation) → total (λ _. 1) xs ≡ length xs
unfolding total
total-one [] = refl
total-one (a ∷ rest) = omega (arith, total-one rest)

-- a tracked address is found
found-present :
    (p : Ptr) (xs : List Allocation) {r : Option (List Allocation × Allocation)}
    → total (holds p) xs ≢ 0
    → Unlinked xs p r
    → (left : List Allocation) × (length xs ≡ suc (length left))
      × ((q : Ptr) → total (holds q) left + (if p == q then 1 else 0) ≡ total (holds q) xs)
found-present p xs some_there (absent nowhere) = elim (some_there nowhere) [ ]
found-present p xs some_there (present left a same size weights) =
    (left, size, λ q. ground (arith, weights (holds q), same))

length-count :
    (ps : List Ptr) (xs : List Allocation)
    → ((q : Ptr) → count q ps ≡ total (holds q) xs)
    → length ps ≡ length xs
unfolding total
length-count [] [] same = refl
length-count [] (a ∷ rest) same = ground (arith, same a.mem)
length-count (p ∷ ps) xs same =
    let found = found-present p xs (λ e. ground (arith, same p, e)) (unlink-Unlinked xs p) in
    let rest = length-count ps found.0 (λ q. ground (arith, same q, found.2 q)) in
    omega (arith, rest, found.1)

abbrev unsigned : ℤ → ℕ
unsigned k = (pos_part k + 2 ^ 64 - neg_part k) % 2 ^ 64

unsigned_small : (n : ℕ) → n < 2 ^ 64 → unsigned (pos n) ≡ n
unsigned_small n small = omega arith

-- heaph_get_alloc_count of a tracker at work, of which `ps` lists the live blocks once each, is the
-- length of `ps`, where that is below 2 ^ 64; the tracker stays as it is.
pub heaph_get_alloc_count-length :
    {buf size : ℕ} {t : Tracker} {s : Live} (ps : List Ptr)
    → Implements buf size 0 t s
    → ((q : Ptr) → count q ps ≡ (if s q then 1 else 0))
    → length ps < 2 ^ 64
    → heaph_get_alloc_count t ≡ ok (length ps, t)
unfolding heaph_get_alloc_count
heaph_get_alloc_count-length {t = t} ps i same fits =
    let n : length t.allocs ≡ length ps =
      sym (length-count ps t.allocs (λ q. same q ∙ sym (i.agrees q))) in
    let counted : t.alloc_count ≡ pos (length ps) = i.tracking.counted ∙ ap pos n in
    ap (λ m. m >>= λ t1. unlock_allocs t1 >>= λ t2. ok (unsigned t.alloc_count, t2))
      (lock_allocs-ok t i.unlocked)
    ∙ ap (λ m. m >>= λ t2. ok (unsigned t.alloc_count, t2))
        (unlock_allocs-ok (record t { allocs_lock = true }) refl)
    ∙ ap (λ k. ok (k, record t { allocs_lock = false }))
        (ap unsigned counted ∙ unsigned_small (length ps) fits)
    ∙ ap (λ b. ok (length ps, record t { allocs_lock = b })) (sym i.unlocked)
