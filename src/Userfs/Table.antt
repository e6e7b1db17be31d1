-- ===== src/Userfs/Table.antt =====
-- Sums over the array of descriptors: how many are open, and how many lead to a file.
use iu_sp.Base.{
  total, ℕ, zero, suc, ◌+◌, ◌≤◌, ◌<◌, ◌≡◌, ◌≢◌, refl, ap, Option, none, some, List, [], ◌∷◌, ◌++◌,
  map, arith, ◌==◌, if◌then◌else◌, length, get_elem?, replicate,
}
use iu_sp.Userfs.State.{Ptr, FileDesc}
use iu_sp.Userfs.Open.{first_free}
use iu_sp.Userfs.Resize.{clamp_desc}

abbrev pub Table : Type 0
Table = List (Option FileDesc)

abbrev pub is_open : Option FileDesc → ℕ
is_open none = 0
is_open (some d) = 1

abbrev pub leads_to : Ptr → Option FileDesc → ℕ
leads_to p none = 0
leads_to p (some d) = if d.file == p then 1 else 0

pub total-append_replicate :
    (w : Option FileDesc → ℕ) (ds : Table) (n : ℕ)
    → w none ≡ 0
    → total w (ds ++ replicate n none) ≡ total w ds
unfolding total
total-append_replicate w [] zero e = refl
total-append_replicate w [] (suc n) e = omega (arith, total-append_replicate w [] n e)
total-append_replicate w (d ∷ ds) n e = omega (arith, total-append_replicate w ds n e)

pub total-clamp :
    (p q : Ptr) (size : ℕ) (ds : Table)
    → total (leads_to q) (map (clamp_desc p size) ds) ≡ total (leads_to q) ds
unfolding total clamp_desc
total-clamp p q size [] = refl
total-clamp p q size (none ∷ ds) = ap (λ t. 0 + t) (total-clamp p q size ds)
total-clamp p q size (some d ∷ ds) = ground (arith, total-clamp p q size ds)

pub total-clamp_open :
    (p : Ptr) (size : ℕ) (ds : Table)
    → total is_open (map (clamp_desc p size) ds) ≡ total is_open ds
unfolding total clamp_desc
total-clamp_open p size [] = refl
total-clamp_open p size (none ∷ ds) = ap (λ t. 0 + t) (total-clamp_open p size ds)
total-clamp_open p size (some d ∷ ds) = ground (arith, total-clamp_open p size ds)

-- What the search for a free place finds is NULL, and nothing before it is.
pub first_free-some :
    (ds : Table) (i j : ℕ)
    → first_free ds i ≡ some j
    → (k : ℕ) × (j ≡ i + k)
      × (get_elem? ds k ≡ some none)
      × ((m : ℕ) → m < k → get_elem? ds m ≢ some none)
unfolding first_free
first_free-some [] i j e = cc
first_free-some (none ∷ ds) i j e = (0, ground arith, refl, λ m h. absurd (omega arith))
first_free-some (some d ∷ ds) i j e =
    let (k, at, free, before) = first_free-some ds (suc i) j e in
    (suc k, omega arith, free, λ m. nothing before m)
  where
    nothing :
        {k : ℕ}
        → ((m : ℕ) → m < k → get_elem? ds m ≢ some none)
        → (m : ℕ) → m < suc k
        → get_elem? (some d ∷ ds) m ≢ some none
    nothing before zero h = λ e. cc
    nothing before (suc m) h = before m (omega arith)

-- The search finds a place wherever fewer are open than there are.
pub first_free-none : (ds : Table) (i : ℕ) → first_free ds i ≡ none → total is_open ds ≡ length ds
unfolding first_free total
first_free-none [] i e = refl
first_free-none (none ∷ ds) i e = cc
first_free-none (some d ∷ ds) i e = omega (arith, first_free-none ds (suc i) e)

pub is_open-le-length : (ds : Table) → total is_open ds ≤ length ds
unfolding total
is_open-le-length [] = omega arith
is_open-le-length (none ∷ ds) = omega (arith, is_open-le-length ds)
is_open-le-length (some d ∷ ds) = omega (arith, is_open-le-length ds)

-- the place behind the end of an array, once it is longer
pub get_elem?-length :
    (ds : Table) (k : ℕ) → 0 < k → get_elem? (ds ++ replicate k none) (length ds) ≡ some none
get_elem?-length [] zero h = absurd (omega arith)
get_elem?-length [] (suc k) h = refl
get_elem?-length (d ∷ ds) k h = get_elem?-length ds k h

-- no place of the array is free where as many are open as there are
pub full-table : (ds : Table) (i : ℕ) → length ds ≤ total is_open ds → get_elem? ds i ≢ some none
unfolding total
full-table [] i h e = cc
full-table (none ∷ ds) i h e = absurd (omega (arith, is_open-le-length ds))
full-table (some d ∷ ds) zero h e = cc
full-table (some d ∷ ds) (suc i) h e = full-table ds i (omega arith) e
