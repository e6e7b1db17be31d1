-- ===== src/Solution/Stream/Numbers.antt =====
-- Both loops over a file of numbers read all of them.
use iu_sp.Base.{
  ℕ, zero, suc, ◌+◌, ◌^◌, ◌<◌, ◌≤◌, ◌≡◌, refl, ap, ◌∙◌, true, false, Option, none, some, List, [],
  ◌∷◌, length, get_elem?, arith, ok,
}
use iu_sp.Int.{ℤ}
use iu_sp.Solution.Stream.{Stdio, count_numbers, read_numbers}

module _ {Name File : Type 0} (stdio : Stdio Name File) where
  -- What the program relies on: a call of fscanf does not move the start of the file, and a stream
  -- stands there when it is opened.
  pub record IsRewinding : Type 0 where
    pub scanned : (file : File) → stdio.rewind (stdio.fscanf file).1 ≡ stdio.rewind file
    pub opened :
        (name : Name) (file : File) → stdio.fopen name ≡ some file → stdio.rewind file ≡ file

  -- The stream holds exactly these numbers from here on, the end of the file right behind the last.
  abbrev pub IsAt : File → List ℤ → Type 0
  IsAt file [] = stdio.feof file ≡ true
  IsAt file (x ∷ xs) =
      (stdio.feof file ≡ false) × ((stdio.fscanf file).0 ≡ some x) × IsAt (stdio.fscanf file).1 xs

  -- A file that is not there, or one of these numbers.
  abbrev pub Gives : Option File → Option (List ℤ) → Type 0
  Gives none none = Unit
  Gives none (some numbers) = ⊥
  Gives (some file) none = ⊥
  Gives (some file) (some numbers) = IsAt file numbers × (length numbers < 2 ^ 30)

  pub fopen-none : (o : Option File) (r : Option (List ℤ)) → r ≡ none → Gives o r → o ≡ none
  fopen-none none r e g = refl
  fopen-none (some file) none e g = absurd g
  fopen-none (some file) (some numbers) e g = cc

  -- Each of these files is not there, or holds its numbers, fewer than 2 ^ 30, and nothing behind.
  pub record AreRead (read_file : Name → Option (List ℤ)) (names : List Name) : Type 0 where
    pub rewinding : IsRewinding
    pub gives :
        (i : ℕ) (name : Name)
        → get_elem? names i ≡ some name
        → Gives (stdio.fopen name) (read_file name)

  module _ (laws : IsRewinding) where
    pub count_numbers-IsAt :
        (room n : ℕ) (file : File) (xs : List ℤ)
        → IsAt file xs
        → length xs ≤ room
        → (end : File) × (count_numbers stdio room n file ≡ ok (n + length xs, end))
          × (stdio.rewind end ≡ stdio.rewind file)
    unfolding count_numbers
    count_numbers-IsAt zero n file [] at le =
        (file, rw (at, count_numbers) (ap (λ k. ok (k, file)) (omega arith)), refl)
    count_numbers-IsAt (suc room) n file [] at le =
        (file, rw (at, count_numbers) (ap (λ k. ok (k, file)) (omega arith)), refl)
    count_numbers-IsAt zero n file (x ∷ xs) at le = absurd (omega (arith, le))
    count_numbers-IsAt (suc room) n file (x ∷ xs) (more, first, rest) le =
        let (end, e, back) =
          count_numbers-IsAt room (n + 1) (stdio.fscanf file).1 xs rest (omega (arith, le)) in
        (
          end,
          rw (more, count_numbers) (e ∙ ap (λ k. ok (k, end)) (omega arith)),
          back ∙ laws.scanned file,
        )

  pub read_numbers-IsAt :
      (file : File) (xs : List ℤ) → IsAt file xs → read_numbers stdio (length xs) file ≡ ok xs
  unfolding read_numbers
  read_numbers-IsAt file [] at = refl
  read_numbers-IsAt file (x ∷ xs) (more, first, rest) =
      rw (first, read_numbers-IsAt (stdio.fscanf file).1 xs rest) refl
