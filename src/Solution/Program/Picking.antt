-- ===== src/Solution/Program/Picking.antt =====
-- The loop of coroutine_func_f of homework-01/solution.c, up to its first yield.
use iu_sp.Base.{
  ℕ, zero, suc, ◌+◌, ◌-◌, ◌≡◌, refl, Option, List, arith, length, drop, total, Returns, returns,
  get_elem?-some,
}
use iu_sp.Int.{ℤ}
use iu_sp.Coro.{Coro, coro_switch_count}
use iu_sp.Coro.Running.{update_at}
use iu_sp.Coro.Rounds.{Turned}
use iu_sp.Solution.Timer.{Timer}
use iu_sp.Solution.Stream.{Stdio}
use iu_sp.Solution.Stream.Numbers.{AreRead}
use iu_sp.Solution.Program.{
  Phase, Context, Shared, new_context, store_array, end_coroutine, pick_files, cost,
}
use iu_sp.Solution.Program.Files.{IsKept}
use iu_sp.Solution.Program.Goals.{program_contract}
use iu_sp.Solution.Program.Holding.{IsKept-ended}
use iu_sp.Solution.Program.Sorting.{opened-Turned}

module _ {Name File : Type 0} (clock : ℕ → ℕ → ℕ) (quantum : ℕ) (stdio : Stdio Name File)
    (read_file : Name → Option (List ℤ)) (filenames : List Name)
    (reads : AreRead stdio read_file filenames) where
  pub pick_files-Turned :
      (n remaining p : ℕ) (c : Coro) (f : ℕ → Context) (t : Timer) (s : Shared)
      → IsKept read_file filenames (update_at p new_context f) s
      → c.switch_count ≡ t.yields
      → s.file_to_sort_idx + remaining ≡ length filenames
      → Returns
          (Turned
            (program_contract read_file filenames n)
            p
            c
            f
            (total (cost read_file) (drop s.file_to_sort_idx filenames)))
          (pick_files clock quantum stdio filenames remaining p c t s)
  unfolding pick_files end_coroutine coro_switch_count new_context store_array
  pick_files-Turned n zero p c f t s k count whole = returns (
    IsKept-ended read_file filenames p f s k
        (record {
          timer = record t {
            total_work_time = t.total_work_time + (clock p t.readings - t.last_work_timer_start);
            readings = t.readings + 1;
          };
          total_switch_count = c.switch_count;
          phase = Phase.ended;
        })
        count (omega (arith, whole)),
    λ y. y,
    omega arith,
  )
  pick_files-Turned n (suc remaining) p c f t s k count whole =
      let i = s.file_to_sort_idx in
      let (name, named) = get_elem?-some filenames i (omega (arith, whole)) in
      rw named (
        opened-Turned clock quantum stdio read_file filenames reads n remaining p c f t s k count
          name named
          (λ u xs k' count'.
            pick_files-Turned n remaining p c f u
              (store_array i xs (record s { file_to_sort_idx = i + 1 })) k' count'
              (omega (arith, whole)))
          (stdio.fopen name) refl (read_file name) refl (reads.gives i name named))
