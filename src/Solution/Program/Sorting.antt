-- ===== src/Solution/Program/Sorting.antt =====
-- A file that coroutine_func_f of homework-01/solution.c picks: it is sorted, and stored or held.
use mathlib.Core.List.{Perm}
use iu_sp.Base.{
  ℕ, zero, suc, ◌+◌, ◌-◌, ◌^◌, ◌<◌, ◌≡◌, refl, ◌∙◌, ap, Option, none, some, List, [], ◌∷◌, arith,
  length, drop, get_elem?, total, ok, ◌>>=◌, Returns, returns, Returns-bind, Returns-map,
  WhenOk-Returns, lt-get_elem?,
}
use iu_sp.Int.{ℤ}
use iu_sp.Coro.{Coro}
use iu_sp.Coro.Running.{CoroTurn, update_at}
use iu_sp.Coro.Rounds.{Turned}
use iu_sp.Solution.Timer.{Timer}
use iu_sp.Solution.HeapSort.Sorted.{heap_sort-IsSorted, IsSorted}
use iu_sp.Solution.Stream.{Stdio}
use iu_sp.Solution.Stream.Numbers.{IsRewinding, IsAt, AreRead, Gives}
use iu_sp.Solution.Whole.{Job, sort_file, sort_file-heap_sort}
use iu_sp.Solution.Yields.{Between, file_yields, sort_file-Between}
use iu_sp.Solution.Program.{
  Phase, Context, Shared, new_context, store_array, pick_files, cost, file_cost,
}
use iu_sp.Solution.Program.Files.{IsRight, IsKept}
use iu_sp.Solution.Program.Goals.{program_contract, Turned-more}
use iu_sp.Solution.Program.Holding.{IsKept-picked, IsKept-stored}

total-drop :
    {A : Type 0} (w : A → ℕ) (xs : List A) (i : ℕ) {x : A}
    → get_elem? xs i ≡ some x
    → total w (drop i xs) ≡ w x + total w (drop (i + 1) xs)
unfolding total
total-drop w [] i e = cc
total-drop w (y ∷ xs) zero {x} e = let same : y ≡ x = cc in rw same refl
total-drop w (y ∷ xs) (suc i) {x} e =
    total-drop w xs i e ∙ ap (λ k. w x + total w (drop k (y ∷ xs))) (step i)
  where
    step : (i : ℕ) → suc (i + 1) ≡ suc i + 1
    step i = omega arith

-- the sort of a file ends, with a bounded number of calls of coro_yield
sort_file-IsSorted :
    {Name File : Type 0} (stdio : Stdio Name File) (quantum : ℕ) (j : Job File) (xs : List ℤ)
    → IsRewinding stdio
    → stdio.rewind j.file ≡ j.file
    → IsAt stdio j.file xs
    → length xs < 2 ^ 30
    → Returns
        (λ r. (IsSorted r.0 × Perm r.0 xs) × Between (file_yields (length xs)) j.timer r.1)
        (sort_file stdio quantum j)
sort_file-IsSorted stdio quantum j xs laws start at short =
    WhenOk-Returns
      (rw (sort_file-heap_sort stdio quantum j xs laws start at short)
        (heap_sort-IsSorted j.get_now quantum xs _ short))
      (sort_file-Between stdio quantum j xs laws start at short)

module _ {Name File : Type 0} (clock : ℕ → ℕ → ℕ) (quantum : ℕ) (stdio : Stdio Name File)
    (read_file : Name → Option (List ℤ)) (filenames : List Name)
    (reads : AreRead stdio read_file filenames) where
  -- a file is picked and sorted, and `d` calls of coro_yield stand between
  sorted-Turned :
      (n remaining p : ℕ) (c : Coro) (f : ℕ → Context) (t u : Timer) (s : Shared) (name : Name)
      (numbers xs : List ℤ)
      → IsKept read_file filenames (update_at p new_context f) s
      → c.switch_count ≡ t.yields
      → get_elem? filenames s.file_to_sort_idx ≡ some name
      → read_file name ≡ some numbers
      → IsSorted xs × Perm xs numbers
      → Between (file_yields (length numbers)) t u
      → (IsKept read_file filenames (update_at p new_context f) (
            store_array s.file_to_sort_idx xs
              (record s { file_to_sort_idx = s.file_to_sort_idx + 1 }))
          → c.switch_count ≡ u.yields
          → Returns
              (Turned
                (program_contract read_file filenames n)
                p
                c
                f
                (total (cost read_file) (drop (s.file_to_sort_idx + 1) filenames)))
              (pick_files clock quantum stdio filenames remaining p c u (
                store_array s.file_to_sort_idx xs
                  (record s { file_to_sort_idx = s.file_to_sort_idx + 1 }))))
      → (d : ℕ) → u.yields - t.yields ≡ d
      → Returns
          (Turned
            (program_contract read_file filenames n)
            p
            c
            f
            (total (cost read_file) (drop s.file_to_sort_idx filenames)))
          (elim d [
            | zero ↦ pick_files clock quantum stdio filenames remaining p c u (
                store_array s.file_to_sort_idx xs
                  (record s { file_to_sort_idx = s.file_to_sort_idx + 1 }))
            | suc left ↦ ok (
                CoroTurn.yielded
                  (record {
                    timer = u;
                    total_switch_count = 0;
                    phase = Phase.sorting s.file_to_sort_idx left xs;
                  })
                  (record s { file_to_sort_idx = s.file_to_sort_idx + 1 }))
          ])
  sorted-Turned n remaining p c f t u s name numbers xs k count named holds sorted b later zero e =
      let mine : IsRight read_file filenames s.file_to_sort_idx xs = record {
        name = name;
        numbers = numbers;
        named = named;
        holds = holds;
        in_order = sorted.0;
        perm = sorted.1;
      } in
      Returns-map
        (later (IsKept-stored read_file filenames p f s k xs mine)
          (omega (arith, count, b.grows, e)))
        λ turn h.
          Turned-more read_file filenames n p c f
            (total (cost read_file) (drop (s.file_to_sort_idx + 1) filenames))
            (total (cost read_file) (drop s.file_to_sort_idx filenames)) turn
            (omega (arith, total-drop (cost read_file) filenames s.file_to_sort_idx named)) h
  sorted-Turned n remaining p c f t u s name numbers xs k count named holds sorted b later
        (suc left) e =
      let mine : IsRight read_file filenames s.file_to_sort_idx xs = record {
        name = name;
        numbers = numbers;
        named = named;
        holds = holds;
        in_order = sorted.0;
        perm = sorted.1;
      } in
      let paid : (cost read_file) name ≡ suc (file_yields (length numbers)) = ap file_cost holds in
      returns (
        IsKept-picked read_file filenames p f s k
            (record {
              timer = u;
              total_switch_count = 0;
              phase = Phase.sorting s.file_to_sort_idx left xs;
            })
            (lt-get_elem? filenames s.file_to_sort_idx named) mine (λ h. h) refl,
        omega (arith, count, b.grows, e),
        omega (
          arith,
          b.few,
          b.grows,
          e,
          paid,
          total-drop (cost read_file) filenames s.file_to_sort_idx named,
        ),
      )

  -- what a coroutine does with the next file, given what it does after a sort without a yield
  pub opened-Turned :
      (n remaining p : ℕ) (c : Coro) (f : ℕ → Context) (t : Timer) (s : Shared)
      → IsKept read_file filenames (update_at p new_context f) s
      → c.switch_count ≡ t.yields
      → (name : Name) → get_elem? filenames s.file_to_sort_idx ≡ some name
      → ((u : Timer) (xs : List ℤ)
          → IsKept read_file filenames (update_at p new_context f) (
              store_array s.file_to_sort_idx xs
                (record s { file_to_sort_idx = s.file_to_sort_idx + 1 }))
          → c.switch_count ≡ u.yields
          → Returns
              (Turned
                (program_contract read_file filenames n)
                p
                c
                f
                (total (cost read_file) (drop (s.file_to_sort_idx + 1) filenames)))
              (pick_files clock quantum stdio filenames remaining p c u (
                store_array s.file_to_sort_idx xs
                  (record s { file_to_sort_idx = s.file_to_sort_idx + 1 }))))
      → (o : Option File) → stdio.fopen name ≡ o
      → (r : Option (List ℤ)) → read_file name ≡ r
      → Gives stdio o r
      → Returns
          (Turned
            (program_contract read_file filenames n)
            p
            c
            f
            (total (cost read_file) (drop s.file_to_sort_idx filenames)))
          (elim o [
            | none ↦ ok CoroTurn.exited
            | some file ↦
                sort_file stdio quantum (record { file = file; get_now = clock p; timer = t })
                >>= λ (xs, u). elim (u.yields - t.yields) [
                  | zero ↦ pick_files clock quantum stdio filenames remaining p c u (
                      store_array s.file_to_sort_idx xs
                        (record s { file_to_sort_idx = s.file_to_sort_idx + 1 }))
                  | suc left ↦ ok (
                      CoroTurn.yielded
                        (record {
                          timer = u;
                          total_switch_count = 0;
                          phase = Phase.sorting s.file_to_sort_idx left xs;
                        })
                        (record s { file_to_sort_idx = s.file_to_sort_idx + 1 }))
                ]
          ])
  opened-Turned n remaining p c f t s k count name named later none e none missing g =
      returns (s.file_to_sort_idx, name, named, missing)
  opened-Turned n remaining p c f t s k count name named later none e (some numbers) holds g =
      absurd g
  opened-Turned n remaining p c f t s k count name named later (some file) e none missing g =
      absurd g
  opened-Turned n remaining p c f t s k count name named later (some file) e (some numbers) holds
        (at, short) =
      Returns-bind
        (sort_file-IsSorted stdio quantum (record { file = file; get_now = clock p; timer = t })
          numbers reads.rewinding (reads.rewinding.opened name file e) at short)
        λ (xs, u) h.
          sorted-Turned n remaining p c f t u s name numbers xs k count named holds h.0 h.1
            (later u xs) (u.yields - t.yields) refl
