-- ===== src/Solution/Stream.antt =====
-- The two loops of `coroutine_func_f` of homework-01/solution.c that read the numbers of a file.
pub mod Numbers
use iu_sp.Base.{
  ℕ, zero, suc, ◌+◌, Bool, true, false, Option, List, [], ◌∷◌, Run, ok, fault, or_fault, ◌>>=◌,
}
use iu_sp.Int.{ℤ}

-- What the C library gives of files, which is no code of this program: `fopen` a stream, where the
-- file can be opened; `fscanf` with "%d" the number that it stores, if it stores one, and the stream
-- after the call; `feof` and `rewind`.
pub record Stdio (Name File : Type 0) : Type 0 where
  pub fopen : Name → Option File
  pub feof : File → Bool
  pub fscanf : File → Option ℤ × File
  pub rewind : File → File

module _ {Name File : Type 0} (stdio : Stdio Name File) where
  -- `while (!feof(file))`, with the stream behind it. `room` is by how much `numbers_count` may still
  -- grow: past INT_MAX the `int` overflows, where fscanf never comes to the end of the file.
  unfoldable pub count_numbers : (room numbers_count : ℕ) → File → Run (ℕ × File)
  count_numbers zero numbers_count file = elim (stdio.feof file) [
    | true ↦ ok (numbers_count, file)
    | false ↦ fault
  ]
  count_numbers (suc room) numbers_count file = elim (stdio.feof file) [
    | true ↦ ok (numbers_count, file)
    | false ↦ count_numbers room (numbers_count + 1) (stdio.fscanf file).1
  ]

  -- `for (int i = 0; i < numbers_count; ++i)`. An entry that fscanf does not store stays as malloc left
  -- it, and the sort or the merge then reads it: a fault.
  unfoldable pub read_numbers : (numbers_count : ℕ) → File → Run (List ℤ)
  read_numbers zero file = ok []
  read_numbers (suc n) file = or_fault (stdio.fscanf file).0 >>= λ number.
      read_numbers n (stdio.fscanf file).1 >>= λ rest. ok (number ∷ rest)
