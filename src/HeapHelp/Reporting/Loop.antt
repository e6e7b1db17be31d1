-- ===== src/HeapHelp/Reporting/Loop.antt =====
-- The loop of heaph_atexit, round by round.
use iu_sp.Base.{
  ℕ, suc, ◌+◌, ◌%◌, ◌^◌, ◌≡◌, refl, sym, ap, ◌∙◌, true, Option, List, [], ◌∷◌, ◌++◌, ltb, ◌==◌,
  if◌then◌else◌, length, arith, total, ok, Bool-cases, inl, inr, min,
}
use mathlib.Core.List.{append_assoc, append-nil}
use iu_sp.Int.{ℤ, pos, pred_ℤ}
use iu_sp.HeapHelp.State.{Allocation}
use iu_sp.HeapHelp.Symbols.{Symbol, trace_resolve, trace_is_internal}
use iu_sp.HeapHelp.Report.{
  Line, Tally, report_limit, failures, report_leak, report_one, report_loop,
}
use iu_sp.HeapHelp.Reporting.Reference.{is_leak, leaks_of, leak_lines, listing}

-- after `k` leaks of `bytes` bytes, with `n` allocations left
abbrev pub tally : (k bytes n : ℕ) → List Line → Tally
tally k bytes n out = record {
  count = pos (k + n);
  report_count = min k report_limit;
  leak_size = bytes % 2 ^ 64;
  out = out;
}

abbrev tally_of : ℤ → ℕ → ℕ → List Line → Tally
tally_of c r l o = record { count = c; report_count = r; leak_size = l; out = o }

Tally-eq :
    {c c' : ℤ} {r r' l l' : ℕ} {o o' : List Line}
    → c ≡ c'
    → r ≡ r'
    → l ≡ l'
    → o ≡ o'
    → tally_of c r l o ≡ tally_of c' r' l' o'
Tally-eq ec er el eo = cc

done-eq :
    {k k' bytes bytes' : ℕ} {out out' : List Line}
    → k ≡ k'
    → bytes ≡ bytes'
    → out ≡ out'
    → (ok (tally k bytes 0 out)) ≡ ok (tally k' bytes' 0 out')
done-eq ek eb eo = cc

module _ (dladdr : ℕ → Option Symbol) where
  report_leak-tally :
      (a : Allocation) (k bytes n : ℕ) (out : List Line)
      → report_leak dladdr a (tally k bytes (suc n) out)
        ≡ tally (suc k) (bytes + a.size) n (out ++ leak_lines dladdr k a)
  unfolding report_leak
  report_leak-tally a k bytes n out =
      let counted : pos (k + suc n) ≡ pos (suc k + n) = ap pos (omega arith) in
      let sum : (bytes % 2 ^ 64 + a.size) % 2 ^ 64 ≡ (bytes + a.size) % 2 ^ 64 = omega arith in
      elim (Bool-cases (ltb k report_limit)) [
        | inl few ↦
            let shown : min k report_limit ≡ k = ground (arith, few) in
            let next : min (suc k) report_limit ≡ k + 1 = ground (arith, few) in
            rw shown (rw few (rw next (Tally-eq counted refl sum refl)))
        | inr many ↦
            let shown : min k report_limit ≡ report_limit = ground (arith, many) in
            let next : min (suc k) report_limit ≡ report_limit = ground (arith, many) in
            rw shown (rw many (rw next (Tally-eq counted refl sum (sym (append-nil out)))))
      ]

  empty_failures :
      (trace : List ℕ) (out : List Line)
      → (length trace == 0) ≡ true
      → out ++ failures dladdr trace ≡ out
  unfolding failures
  empty_failures [] out e = append-nil out
  empty_failures (addr ∷ addrs) out e = ground arith

  report_one-tally :
      (a : Allocation) (k bytes n : ℕ) (out : List Line)
      → report_one dladdr a (tally k bytes (suc n) out) ≡ (
          if is_leak dladdr a
          then tally
              (suc k)
              (bytes + a.size)
              n
              ((out ++ failures dladdr a.trace) ++ leak_lines dladdr k a)
          else tally k bytes n (out ++ failures dladdr a.trace))
  unfolding report_one pred_ℤ
  report_one-tally a k bytes n out =
      let counted : pred_ℤ (pos (k + suc n)) ≡ pos (k + n) =
        let next : k + suc n ≡ suc (k + n) = omega arith in ap (λ m. pred_ℤ (pos m)) next in
      elim (Bool-cases (length a.trace == 0)) [
        | inl empty ↦
            let nothing : out ++ failures dladdr a.trace ≡ out = empty_failures a.trace out empty in
            rw empty (Tally-eq counted refl refl (sym nothing))
        | inr known ↦ elim (Bool-cases (trace_is_internal (trace_resolve dladdr a.trace))) [
          | inl internal ↦ rw known (rw internal (Tally-eq counted refl refl refl))
          | inr outside ↦
              rw known (rw outside (report_leak-tally a k bytes n (out ++ failures dladdr a.trace)))
        ]
      ]

  pub report_loop-tally :
      (xs : List Allocation) (k bytes : ℕ) (out : List Line)
      → report_loop dladdr xs (tally k bytes (length xs) out)
        ≡ ok (
            tally
              (k + length (leaks_of dladdr xs))
              (bytes + total (λ (a : Allocation). a.size) (leaks_of dladdr xs))
              0
              (out ++ listing dladdr k xs))
  unfolding report_loop leaks_of listing total
  report_loop-tally [] k bytes out = ap ok (
      Tally-eq (ap pos (omega arith)) (ap (λ m. min m report_limit) (omega arith))
        (ap (λ m. m % 2 ^ 64) (omega arith)) (sym (append-nil out)))
  report_loop-tally (a ∷ xs) k bytes out =
      let running : ltb 0 (k + suc (length xs) + 0) ≡ true = ground arith in
      rw running (
        rw (report_one-tally a k bytes (length xs) out) (elim (Bool-cases (is_leak dladdr a)) [
          | inl leak ↦ rw leak (
              report_loop-tally xs (suc k) (bytes + a.size)
                ((out ++ failures dladdr a.trace) ++ leak_lines dladdr k a)
              ∙ done-eq (omega arith) (omega arith) (
                  append_assoc (out ++ failures dladdr a.trace) (leak_lines dladdr k a) _
                  ∙ append_assoc out (failures dladdr a.trace) _))
          | inr other ↦ rw other (
              report_loop-tally xs k bytes (out ++ failures dladdr a.trace)
              ∙ done-eq refl refl (append_assoc out (failures dladdr a.trace) _))
        ]))
