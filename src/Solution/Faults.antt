-- ===== src/Solution/Faults.antt =====
-- Files whose numbers `coroutine_func_f` of homework-01/solution.c does not read: those with a token that
-- is no number, and those that do not end right behind their last number.
use iu_sp.Base.{
  ℕ, zero, suc, ◌+◌, ◌-◌, ◌^◌, ◌<◌, ◌≡◌, refl, sym, ap, ◌∙◌, subst, true, false, none, some, List,
  [], ◌∷◌, ◌⊎◌, inl, inr, length, arith, ok, fault,
}
use iu_sp.Int.{ℤ}
use iu_sp.Solution.Stream.{Stdio, count_numbers, read_numbers}
use iu_sp.Solution.Stream.Numbers.{IsRewinding}
use iu_sp.Solution.Whole.{Job, sort_file}

module _ {Name File : Type 0} (stdio : Stdio Name File) where
  -- The stream holds these numbers from the first place on, and then stands at the second.
  abbrev pub Reaches : File → List ℤ → File → Type 0
  Reaches file [] end = file ≡ end
  Reaches file (x ∷ xs) end =
      (stdio.feof file ≡ false)
      × ((stdio.fscanf file).0 ≡ some x)
      × Reaches (stdio.fscanf file).1 xs end

  -- at a token that is no number, fscanf stays where it is
  pub record IsStuck (file : File) : Type 0 where
    pub more : stdio.feof file ≡ false
    pub stays : (stdio.fscanf file).1 ≡ file

  -- at blanks before the end of the file, fscanf stores nothing and comes to the end
  pub record IsBlank (file : File) : Type 0 where
    pub more : stdio.feof file ≡ false
    pub unread : (stdio.fscanf file).0 ≡ none
    pub over : stdio.feof (stdio.fscanf file).1 ≡ true

  count_numbers-IsStuck :
      (room n : ℕ) (file : File) → IsStuck file → count_numbers stdio room n file ≡ fault
  unfolding count_numbers
  count_numbers-IsStuck zero n file s = rw (s.more, count_numbers) refl
  count_numbers-IsStuck (suc room) n file s =
      rw (s.more, count_numbers)
        (ap (count_numbers stdio room (n + 1)) s.stays ∙ count_numbers-IsStuck room (n + 1) file s)

  count_numbers-Reaches :
      (room n : ℕ) (file : File) (xs : List ℤ) (end : File)
      → Reaches file xs end
      → IsStuck end
      → count_numbers stdio room n file ≡ fault
  unfolding count_numbers
  count_numbers-Reaches room n file [] end at s =
      ap (count_numbers stdio room n) at ∙ count_numbers-IsStuck room n end s
  count_numbers-Reaches zero n file (x ∷ xs) end (more, first, rest) s =
      rw (more, count_numbers) refl
  count_numbers-Reaches (suc room) n file (x ∷ xs) end (more, first, rest) s =
      rw (more, count_numbers)
        (count_numbers-Reaches room (n + 1) (stdio.fscanf file).1 xs end rest s)

  module _ (laws : IsRewinding stdio) where
    -- one number too many is counted
    count_numbers-IsBlank :
        (room n : ℕ) (file : File) (xs : List ℤ) (end : File)
        → Reaches file xs end
        → IsBlank end
        → length xs < room
        → (last : File) × (count_numbers stdio room n file ≡ ok (n + suc (length xs), last))
          × (stdio.rewind last ≡ stdio.rewind file)
    unfolding count_numbers
    count_numbers-IsBlank zero n file xs end at b lt = absurd (omega (arith, lt))
    count_numbers-IsBlank (suc room) n file [] end at b lt =
        let here : IsBlank file = subst IsBlank (sym at) b in
        (
          (stdio.fscanf file).1,
          rw (here.more, count_numbers) (last room here.over),
          laws.scanned file,
        )
      where
        last :
            (room : ℕ)
            → stdio.feof (stdio.fscanf file).1 ≡ true
            → count_numbers stdio room (n + 1) (stdio.fscanf file).1
              ≡ ok (n + suc 0, (stdio.fscanf file).1)
        last zero over = rw (over, count_numbers) refl
        last (suc room) over = rw (over, count_numbers) refl
    count_numbers-IsBlank (suc room) n file (x ∷ xs) end (more, first, rest) b lt =
        let (last, e, back) =
          count_numbers-IsBlank room (n + 1) (stdio.fscanf file).1 xs end rest b
            (omega (arith, lt)) in
        (
          last,
          rw (more, count_numbers) (e ∙ ap (λ k. ok (k, last)) (omega arith)),
          back ∙ laws.scanned file,
        )

  -- and the last of those counted is not there to read
  read_numbers-IsBlank :
      (file : File) (xs : List ℤ) (end : File)
      → Reaches file xs end
      → IsBlank end
      → read_numbers stdio (suc (length xs)) file ≡ fault
  unfolding read_numbers
  read_numbers-IsBlank file [] end at b =
      let here : IsBlank file = subst IsBlank (sym at) b in rw (here.unread, read_numbers) refl
  read_numbers-IsBlank file (x ∷ xs) end (more, first, rest) b =
      rw (first, read_numbers-IsBlank (stdio.fscanf file).1 xs end rest b) refl

  -- An open file that holds numbers, fewer than 2 ^ 30, and then a token that is no number, at which fscanf
  -- stays, or blanks up to its end: the round of coroutine_func_f for it ends in a fault, since the count
  -- of the numbers overflows, or an entry of the array is never read from the file.
  pub sort_file-fault :
      (quantum : ℕ) (j : Job File) (xs : List ℤ) (end : File)
      → IsRewinding stdio
      → stdio.rewind j.file ≡ j.file
      → Reaches j.file xs end
      → IsStuck end ⊎ IsBlank end
      → length xs < 2 ^ 30
      → sort_file stdio quantum j ≡ fault
  unfolding sort_file
  sort_file-fault quantum j xs end laws start at (inl stuck) short =
      rw (count_numbers-Reaches (2 ^ 31 - 1) 0 j.file xs end at stuck) refl
  sort_file-fault quantum j xs end laws start at (inr blank) short =
      let (last, counted, back) =
        count_numbers-IsBlank laws (2 ^ 31 - 1) 0 j.file xs end at blank (omega (arith, short)) in
      let whole : 0 + suc (length xs) ≡ suc (length xs) = omega arith in
      rw (counted, back ∙ start, whole, read_numbers-IsBlank j.file xs end at blank) refl
