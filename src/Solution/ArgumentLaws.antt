-- ===== src/Solution/ArgumentLaws.antt =====
-- The options that the program starts with: no division by zero, and every file name in `argv`.
use iu_sp.Base.{
  zero, suc, ◌<◌, ◌≤◌, ◌≡◌, refl, sym, Bool, true, ◌||◌, some, List, [], ◌∷◌, arith, length, inl,
  inr, Bool-cases, Option-cases,
}
use native.Mathlib.Nat.{le-div_iff_mul-le}
use iu_sp.Int.{ℤ, pos, negsuc, ◌≤ℤ◌, ≤ℤ_trans, pos_part, neg_part}
use iu_sp.Solution.Arguments.{
  Options, minus_two, default_options, is_usable, parse_options, parse_arguments, coroutine_quantum,
}

minus_two-le : (x : ℤ) → minus_two x ≤ℤ x
unfolding minus_two
minus_two-le (pos zero) = omega arith
minus_two-le (pos (suc zero)) = omega arith
minus_two-le (pos (suc (suc n))) = omega arith
minus_two-le (negsuc n) = omega arith

is_usable-bounds :
    (o : Options)
    → is_usable o ≡ true
    → (pos 1 ≤ℤ o.coroutines_count)
      × (o.coroutines_count ≤ℤ o.target_latency)
      × (pos 1 ≤ℤ o.files_count)
unfolding is_usable
is_usable-bounds o e = (ground arith, ground arith, ground arith)

no_neg_part : (x : ℤ) → 1 ≤ pos_part x → neg_part x ≡ 0
no_neg_part (pos n) h = refl
no_neg_part (negsuc n) h = absurd (omega arith)

quantum-pos :
    (o : Options)
    → pos 1 ≤ℤ o.coroutines_count
    → o.coroutines_count ≤ℤ o.target_latency
    → 0 < coroutine_quantum o
unfolding coroutine_quantum
quantum-pos o some_coroutines enough =
    (le-div_iff_mul-le {k = pos_part o.coroutines_count} (omega arith)).1
      (omega (arith, no_neg_part o.coroutines_count (omega arith)))

module _ {ℓ} {Word : Type ℓ} (is_n is_t : Word → Bool) (strtol : Word → ℤ) where
  parse_options-files :
      (ws : List Word) (o : Options) {r : Options}
      → parse_options is_n is_t strtol ws o ≡ some r
      → r.files_count ≤ℤ o.files_count
  unfolding parse_options
  parse_options-files [] o {r} e = let same : o ≡ r = cc in rw (sym same) (omega arith)
  parse_options-files (w ∷ []) o {r} e = elim (Bool-cases (is_n w || is_t w)) [
    | inl option ↦ ground (arith, e, option)
    | inr file ↦
        let kept : some o ≡ some r = ground (arith, e, file) in
        let same : o ≡ r = cc in rw (sym same) (omega arith)
  ]
  parse_options-files (w ∷ v ∷ ws) o {r} e = elim (Bool-cases (is_n w)) [
    | inl n ↦
        ≤ℤ_trans r.files_count (minus_two o.files_count) o.files_count
          (parse_options-files (v ∷ ws)
            (record o { coroutines_count = strtol v; files_count = minus_two o.files_count })
            {r = r} (ground (arith, e, n)))
          (minus_two-le o.files_count)
    | inr n ↦ elim (Bool-cases (is_t w)) [
      | inl t ↦
          ≤ℤ_trans r.files_count (minus_two o.files_count) o.files_count
            (parse_options-files (v ∷ ws)
              (record o { target_latency = strtol v; files_count = minus_two o.files_count })
              {r = r} (ground (arith, e, n, t)))
            (minus_two-le o.files_count)
      | inr t ↦ parse_options-files (v ∷ ws) o {r = r} (ground (arith, e, n, t))
    ]
  ]

  -- When the program does not print its usage, there is a coroutine at least, the quantum of each is
  -- positive, and there is a file at least and no more of them than arguments, so that the names
  -- begin inside `argv`.
  pub parse_arguments-bounds :
      (ws : List Word) {o : Options}
      → parse_arguments is_n is_t strtol ws ≡ some o
      → (pos 1 ≤ℤ o.coroutines_count)
        × (0 < coroutine_quantum o)
        × (pos 1 ≤ℤ o.files_count)
        × (o.files_count ≤ℤ pos (length ws))
  unfolding parse_arguments coroutine_quantum default_options
  parse_arguments-bounds ws {o} e =
      elim (Option-cases (parse_options is_n is_t strtol ws (default_options (length ws)))) [
        | inl none_parsed ↦ ground (arith, e, none_parsed)
        | inr (r, parsed) ↦ elim (Bool-cases (is_usable r)) [
          | inr bad ↦ ground (arith, e, parsed, bad)
          | inl good ↦
              let kept : some r ≡ some o = ground (arith, e, parsed, good) in
              let same : r ≡ o = cc in
              let (coroutines, latency, files) = is_usable-bounds r good in
              rw (sym same) (
                coroutines,
                quantum-pos r coroutines latency,
                files,
                parse_options-files ws (default_options (length ws)) parsed,
              )
        ]
      ]
