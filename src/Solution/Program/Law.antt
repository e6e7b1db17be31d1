-- ===== src/Solution/Program/Law.antt =====
-- A turn of `coroutine_func_f` of homework-01/solution.c, under its contract.
use iu_sp.Base.{
  ℕ, zero, suc, ◌+◌, ◌-◌, ◌≡◌, refl, Option, List, arith, length, drop, total, ok, fault, Returns,
  returns, Returns-map,
}
use iu_sp.Int.{ℤ}
use iu_sp.Coro.{Coro}
use iu_sp.Coro.Running.{CoroTurn}
use iu_sp.Coro.Rounds.{Turned}
use iu_sp.Solution.Stream.{Stdio}
use iu_sp.Solution.Stream.Numbers.{AreRead}
use iu_sp.Solution.Program.{
  Phase, Context, Shared, start_timer, store_array, pick_files, coroutine_func, cost,
}
use iu_sp.Solution.Program.Files.{IsProper, IsKept}
use iu_sp.Solution.Program.Goals.{lefts, Matches, program_contract, Turned-more}
use iu_sp.Solution.Program.Holding.{IsKept-starting, IsKept-sorted, IsKept-sorting}
use iu_sp.Solution.Program.Picking.{pick_files-Turned}

module _ {Name File : Type 0} (clock : ℕ → ℕ → ℕ) (quantum : ℕ) (stdio : Stdio Name File)
    (read_file : Name → Option (List ℤ)) (filenames : List Name)
    (reads : AreRead stdio read_file filenames) where
  -- A turn of a coroutine keeps what the coroutines keep.
  pub coroutine_func-Turned :
      (n p : ℕ) (c : Coro) (f : ℕ → Context) (s : Shared)
      → IsKept read_file filenames f s
      → Matches c (f p) (f p).phase
      → Returns
          (Turned
            (program_contract read_file filenames n)
            p
            c
            f
            (lefts (f p).phase + total (cost read_file) (drop s.file_to_sort_idx filenames)))
          (coroutine_func clock quantum stdio filenames p c (f p) s)
  unfolding coroutine_func store_array
  coroutine_func-Turned n p c f s k matches = turn (f p).phase refl (k.proper p) matches
    where
      turn :
          (phase : Phase)
          → (f p).phase ≡ phase
          → IsProper read_file filenames (f p) phase
          → Matches c (f p) phase
          → Returns
              (Turned
                (program_contract read_file filenames n)
                p
                c
                f
                (lefts phase + total (cost read_file) (drop s.file_to_sort_idx filenames)))
              (elim phase [
                | Phase.starting ↦
                    pick_files clock quantum stdio filenames
                      (length filenames - s.file_to_sort_idx)
                      p
                      c
                      (start_timer (clock p 0))
                      s
                | Phase.sorting i zero xs ↦
                    pick_files clock quantum stdio filenames
                      (length filenames - s.file_to_sort_idx)
                      p
                      c
                      (f p).timer
                      (store_array i xs s)
                | Phase.sorting i (suc left) xs ↦
                    ok (CoroTurn.yielded (record (f p) { phase = Phase.sorting i left xs }) s)
                | Phase.ended ↦ fault
              ])
      turn Phase.starting e proper m =
          Returns-map
            (pick_files-Turned clock quantum stdio read_file filenames reads n
              (length filenames - s.file_to_sort_idx) p c f (start_timer (clock p 0)) s
              (IsKept-starting read_file filenames p f s k e) m (omega (arith, k.bound)))
            λ t h.
              Turned-more read_file filenames n p c f
                (total (cost read_file) (drop s.file_to_sort_idx filenames))
                (0 + total (cost read_file) (drop s.file_to_sort_idx filenames)) t (omega arith) h
      turn (Phase.sorting i zero xs) e proper m =
          Returns-map
            (pick_files-Turned clock quantum stdio read_file filenames reads n
              (length filenames - s.file_to_sort_idx) p c f (f p).timer (store_array i xs s)
              (IsKept-sorted read_file filenames p f s k i 0 xs e proper) (omega (arith, m))
              (omega (arith, k.bound)))
            λ t h.
              Turned-more read_file filenames n p c f
                (total (cost read_file) (drop s.file_to_sort_idx filenames))
                (1 + total (cost read_file) (drop s.file_to_sort_idx filenames)) t (omega arith) h
      turn (Phase.sorting i (suc left) xs) e proper m = returns (
        IsKept-sorting read_file filenames p f s k i (suc left) xs e proper left,
        omega (arith, m),
        omega arith,
      )
      turn Phase.ended e proper m = absurd m
