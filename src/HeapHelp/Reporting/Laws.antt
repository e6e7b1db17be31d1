-- ===== src/HeapHelp/Reporting/Laws.antt =====
-- The report as a whole.
use iu_sp.Base.{
  ℕ, suc, ◌+◌, ◌-◌, ◌%◌, ◌^◌, ◌≤◌, ◌≡◌, refl, sym, ap, ◌∙◌, Bool, true, false, not, ◌&&◌, Option,
  List, [], ◌∷◌, ◌++◌, leb, ltb, ◌==◌, if◌then◌else◌, if-false, length, arith, total, Run, ok,
  ◌>>=◌, Bool-cases, inl, inr, min,
}
use iu_sp.Int.{ℤ, pos, ◌-ℤ◌, is_zero}
use iu_sp.HeapHelp.State.{Allocation, Tracker, unlock_allocs, lock_allocs-ok, unlock_allocs-ok}
use iu_sp.HeapHelp.Symbols.{Symbol}
use iu_sp.HeapHelp.Invariant.{IsTracking}
use iu_sp.HeapHelp.Report.{
  Line, Tally, report_limit, report_loop, summary, is_verbose, is_quiet, report_leaks, report_none,
  heaph_atexit,
}
use iu_sp.HeapHelp.Reporting.Reference.{
  is_empty, is_leak, leaks_of, listing, closing, none_lines, report_of, report_on, reference,
}
use iu_sp.HeapHelp.Reporting.Loop.{tally, report_loop-tally}

pos_difference : (m n : ℕ) → n ≤ m → pos m -ℤ pos n ≡ pos (m - n)
unfolding ◌-ℤ◌
pos_difference m n h =
    let order : leb (n + 0) (m + 0) ≡ true = ground (arith, h) in
    let left : (m + 0) - (n + 0) ≡ m - n = omega arith in rw order (ap pos left)

is_zero-difference : (m n : ℕ) → n ≤ m → is_zero (pos (m - n)) ≡ (n == m)
is_zero-difference m n h = elim (Bool-cases (n == m)) [
  | inl e ↦
      let none_left : m - n ≡ 0 = ground (arith, e) in rw e (ap (λ k. is_zero (pos k)) none_left)
  | inr e ↦
      let some_left : m - n ≡ suc (m - n - 1) = ground (arith, e, h) in
      rw e (ap (λ k. is_zero (pos k)) some_left)
]

shown_lines :
    (n : ℕ)
    → (if ltb (min n report_limit + 0) (n + 0)
        then Line.only_first (min n report_limit) ∷ []
        else [])
      ≡ (if ltb report_limit n then Line.only_first report_limit ∷ [] else [])
shown_lines n = elim (Bool-cases (ltb report_limit n)) [
  | inl many ↦
      let shown : min n report_limit ≡ report_limit = ground (arith, many) in
      let told : ltb (report_limit + 0) (n + 0) ≡ true = ground (arith, many) in
      rw many (rw shown (rw told refl))
  | inr few ↦
      let shown : min n report_limit ≡ n = ground (arith, few) in
      let quiet : ltb (n + 0) (n + 0) ≡ false = ground arith in rw few (rw shown (rw quiet refl))
]

summary-closing :
    (n m bytes allocations : ℕ) (out : List Line)
    → n ≤ m
    → summary (pos m) allocations (tally n bytes 0 out) ≡ closing n m bytes allocations
unfolding summary closing
summary-closing n m bytes allocations out h =
    let found_all : n + 0 ≡ n = omega arith in
    rw found_all (
      rw (pos_difference m n h) (
        rw (is_zero-difference m n h) (
          ap
            (λ shown.
              Line.found (pos n) (bytes % 2 ^ 64)
                ∷ (if n == m then [] else Line.suppressed (pos (m - n)) ∷ [])
              ++ shown
              ++ Line.total allocations ∷ [])
            (shown_lines n))))

length-leaks_of :
    (dladdr : ℕ → Option Symbol) (xs : List Allocation) → length (leaks_of dladdr xs) ≤ length xs
unfolding leaks_of
length-leaks_of dladdr [] = omega arith
length-leaks_of dladdr (a ∷ xs) = elim (Bool-cases (is_leak dladdr a)) [
  | inl e ↦ rw e (omega (arith, length-leaks_of dladdr xs))
  | inr e ↦ rw e (omega (arith, length-leaks_of dladdr xs))
]

is_zero-is_empty : {A : Type 0} (xs : List A) → is_zero (pos (length xs)) ≡ is_empty xs
is_zero-is_empty [] = refl
is_zero-is_empty (x ∷ xs) = refl

-- the tracker's fields that the report reads, behind the lock
abbrev told : Bool → Tally → ℤ → ℕ → List Line
told verbose s count allocations =
    if is_zero s.count && not verbose then s.out else s.out ++ summary count allocations s

if-both :
    {A B : Type 0} (b : Bool) (f : A → B) {x y : B} {x' y' : A}
    → x ≡ f x'
    → y ≡ f y'
    → (if b then x else y) ≡ f (if b then x' else y')
if-both true f e e' = e
if-both false f e e' = e'

module _ (dladdr : ℕ → Option Symbol) where
  told-report_of :
      (verbose : Bool) (xs : List Allocation) (allocations : ℕ)
      → told verbose
          (tally
            (0 + length (leaks_of dladdr xs))
            (0 + total (λ (a : Allocation). a.size) (leaks_of dladdr xs))
            0
            (listing dladdr 0 xs))
          (pos (length xs))
          allocations
        ≡ report_of dladdr verbose xs allocations
  unfolding report_of
  told-report_of verbose xs allocations =
      let n = length (leaks_of dladdr xs) in
      let bytes = total (λ (a : Allocation). a.size) (leaks_of dladdr xs) in
      let lines = listing dladdr 0 xs in
      let one : 0 + n ≡ n = omega arith in
      let two : 0 + bytes ≡ bytes = omega arith in
      let three : n + 0 ≡ n = omega arith in
      ap (λ k. told verbose (tally k (0 + bytes) 0 lines) (pos (length xs)) allocations) one
      ∙ ap (λ b. told verbose (tally n b 0 lines) (pos (length xs)) allocations) two
      ∙ ap
          (λ z.
            if z && not verbose
            then lines
            else lines ++ summary (pos (length xs)) allocations (tally n bytes 0 lines))
          (ap (λ k. is_zero (pos k)) three ∙ is_zero-is_empty (leaks_of dladdr xs))
      ∙ ap (λ l. if is_empty (leaks_of dladdr xs) && not verbose then lines else lines ++ l)
          (summary-closing n (length xs) bytes allocations lines (length-leaks_of dladdr xs))

  module _ (t : Tracker) (counted : t.alloc_count ≡ pos (length t.allocs))
      (locked : t.allocs_lock ≡ true) where
    report_none-lines : report_none t ≡ ok (record t { allocs_lock = false }, none_lines t)
    unfolding report_none
    report_none-lines = ap (λ m. m >>= λ u. ok (u, none_lines t)) (unlock_allocs-ok t locked)

    report_leaks-lines :
        report_leaks dladdr t
        ≡ ok (
          record t { allocs_lock = false },
          report_of dladdr (is_verbose t.report_mode) t.allocs t.alloc_count_total,
        )
    unfolding report_leaks
    report_leaks-lines =
        let verbose = is_verbose t.report_mode in
        let written : Tracker → Tally → ℤ → Run (Tracker × List Line) =
          λ u s c. ok (u, told verbose s c t.alloc_count_total) in
        let last : Tally =
          tally (0 + length (leaks_of dladdr t.allocs))
            (0 + total (λ (a : Allocation). a.size) (leaks_of dladdr t.allocs)) 0
            (listing dladdr 0 t.allocs) in
        let none_yet : length t.allocs ≡ 0 + length t.allocs = omega arith in
        ap
          (λ c.
            report_loop dladdr t.allocs
              (record { count = c; report_count = 0; leak_size = 0; out = [] })
            >>= λ s. unlock_allocs t >>= λ u. written u s t.alloc_count)
          (counted ∙ ap pos none_yet)
        ∙ ap (λ m. m >>= λ s. unlock_allocs t >>= λ u. written u s t.alloc_count)
            (report_loop-tally dladdr t.allocs 0 0 [])
        ∙ ap (λ m. m >>= λ u. written u last t.alloc_count) (unlock_allocs-ok t locked)
        ∙ ap (λ c. written (record t { allocs_lock = false }) last c) counted
        ∙ ap (λ l. ok (record t { allocs_lock = false }, l))
            (told-report_of verbose t.allocs t.alloc_count_total)

    report-lines :
        (if is_zero t.alloc_count then report_none t else report_leaks dladdr t)
        ≡ ok (record t { allocs_lock = false }, report_on dladdr t)
    report-lines =
        ap (λ b. if b then report_none t else report_leaks dladdr t)
          (ap is_zero counted ∙ is_zero-is_empty t.allocs)
        ∙ if-both (is_empty t.allocs) (λ lines. ok (record t { allocs_lock = false }, lines))
            report_none-lines report_leaks-lines

  -- At the end of a program, with the lock of a valid tracker free and before any other report,
  -- heaph_atexit prints exactly the lines of the reference and marks the end.
  pub heaph_atexit-reference :
      (t : Tracker)
      → IsTracking t
      → t.allocs_lock ≡ false
      → t.is_exit_done ≡ false
      → heaph_atexit dladdr t ≡ ok (record t { is_exit_done = true }, reference dladdr t)
  unfolding heaph_atexit reference
  heaph_atexit-reference t v unlocked running =
      let t1 = record t { is_exit_done = true } in
      if-false (ok (t1, [])) _ running
      ∙ if-both (is_quiet t.report_mode) (λ lines. ok (t1, lines)) refl
          (ap
              (λ m.
                m >>= λ u. if is_zero u.alloc_count then report_none u else report_leaks dladdr u)
              (lock_allocs-ok t1 unlocked)
            ∙ report-lines (record t1 { allocs_lock = true }) v.counted refl
            ∙ ap (λ b. ok (record t1 { allocs_lock = b }, report_on dladdr t)) (sym unlocked))
