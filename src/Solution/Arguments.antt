-- ===== src/Solution/Arguments.antt =====
-- The arguments of `main` of homework-01/solution.c.
use iu_sp.Base.{
  ℕ, zero, suc, ◌+◌, ◌/◌, Bool, ◌||◌, ◌&&◌, not, Option, none, some, List, [], ◌∷◌, length,
  if◌then◌else◌,
}
use iu_sp.Int.{ℤ, pos, negsuc, ltb_ℤ, pos_part}

pub record Options : Type 0 where
  pub coroutines_count : ℤ
  pub target_latency : ℤ
  pub files_count : ℤ

-- `files_count -= 2`
unfoldable pub minus_two : ℤ → ℤ
minus_two (pos zero) = negsuc 1
minus_two (pos (suc zero)) = negsuc 0
minus_two (pos (suc (suc n))) = pos n
minus_two (negsuc n) = negsuc (n + 2)

-- the defaults, for `argc - 1` arguments
unfoldable pub default_options : ℕ → Options
default_options n = record {
  coroutines_count = pos 3;
  target_latency = pos 1000;
  files_count = pos n;
}

-- the test after the loop
unfoldable pub is_usable : Options → Bool
is_usable o =
    not_below (pos 1) o.coroutines_count
    && not_below o.coroutines_count o.target_latency
    && not_below (pos 1) o.files_count
  where
    not_below : ℤ → ℤ → Bool
    not_below low x = not (ltb_ℤ x low)

-- `Word` is the type of an argument, `is_n` and `is_t` compare one to "-n" and "-t", and `strtol` is
-- the library's, in base 10.
module _ {ℓ} {Word : Type ℓ} (is_n is_t : Word → Bool) (strtol : Word → ℤ) where
  -- The loop. The value of an option is looked at again as the next argument.
  unfoldable pub parse_options : List Word → Options → Option Options
  parse_options [] o = some o
  parse_options (w ∷ []) o = if is_n w || is_t w then none else some o
  parse_options (w ∷ v ∷ ws) o =
      let after_n =
        parse_options (v ∷ ws)
          (record o { coroutines_count = strtol v; files_count = minus_two o.files_count }) in
      let after_t =
        parse_options (v ∷ ws)
          (record o { target_latency = strtol v; files_count = minus_two o.files_count }) in
      let after_file = parse_options (v ∷ ws) o in
      if is_n w then after_n else if is_t w then after_t else after_file

  -- `none` where the program prints its usage; the arguments are those behind its name
  unfoldable pub parse_arguments : List Word → Option Options
  parse_arguments ws = elim (parse_options ws (default_options (length ws))) [
    | none ↦ none
    | some o ↦ if is_usable o then some o else none
  ]

-- `target_latency / coroutines_count`, of usable options
unfoldable pub coroutine_quantum : Options → ℕ
coroutine_quantum o = pos_part o.target_latency / pos_part o.coroutines_count
