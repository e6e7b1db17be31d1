-- ===== src/Coro/Waiting.antt =====
-- What the scheduler returns, and that it yields only while every coroutine is alive.
use iu_sp.Base.{
  ℕ, ◌≡◌, refl, sym, ap, true, false, Option, none, some, [], ◌∷◌, ◌++◌, All, arith, ◌==◌, inl, inr,
  Bool-cases, Option-cases, subst, ◌∙◌,
}
use iu_sp.Coro.{
  Coro, Coros, coro_is_finished, find_finished, coro_list_delete, Wait, coro_sched_wait,
}

abbrev pub IsAlive : ℕ × Coro → Type 0
IsAlive e = e.1.is_finished ≡ false

-- no address stands in the list
abbrev pub IsAbsent : ℕ → Coros → Type 0
IsAbsent p cs = All (λ (e : ℕ × Coro). (e.0 == p) ≡ false) cs

-- no address stands twice
abbrev pub IsDistinct : Coros → Type 0
IsDistinct [] = Unit
IsDistinct ((p, c) ∷ cs) = IsAbsent p cs × IsDistinct cs

-- A round with a list: the first finished coroutine goes and is returned, those around it stay, or
-- all are alive.
pub data Chosen (cs : Coros) : Wait → Type 0 where
  nobody : cs ≡ [] → Chosen cs Wait.returns_null
  chosen :
      (before : Coros) (p : ℕ) (c : Coro) (after : Coros)
      → cs ≡ before ++ (p, c) ∷ after
      → All IsAlive before
      → c.is_finished ≡ true
      → Chosen cs (Wait.returns_coro p c (before ++ after))
  all_alive :
      (p : ℕ) (c : Coro) (rest : Coros)
      → cs ≡ (p, c) ∷ rest
      → All IsAlive cs
      → Chosen cs (Wait.yields_to p)

absent-middle :
    (p q : ℕ) (c : Coro) (before after : Coros)
    → IsAbsent p (before ++ (q, c) ∷ after)
    → (q == p) ≡ false
absent-middle p q c [] after h = h.0
absent-middle p q c (e ∷ before) after h = absent-middle p q c before after h.1

none_finished : (cs : Coros) → find_finished cs ≡ none → All IsAlive cs
unfolding find_finished coro_is_finished
none_finished [] e = tt
none_finished ((p, c) ∷ cs) e = elim (Bool-cases c.is_finished) [
  | inl done ↦ ground (arith, e, done)
  | inr alive ↦ (alive, none_finished cs (ground (arith, e, alive)))
]

find_finished-first :
    (cs : Coros) {p : ℕ} {c : Coro}
    → IsDistinct cs
    → find_finished cs ≡ some (p, c)
    → (before : Coros) × (after : Coros) × (cs ≡ before ++ (p, c) ∷ after)
      × All IsAlive before
      × (c.is_finished ≡ true)
      × (coro_list_delete p cs ≡ before ++ after)
unfolding find_finished coro_is_finished coro_list_delete
find_finished-first [] d e = cc
find_finished-first ((q, x) ∷ cs) {p} {c} d e = elim (Bool-cases x.is_finished) [
  | inl done ↦
      let same : ◌≡◌ {A = Option (ℕ × Coro)} (some (q, x)) (some (p, c)) =
        ground (arith, e, done) in
      let place : q ≡ p = cc in
      let whole : x ≡ c = cc in
      let pair : ◌≡◌ {A = ℕ × Coro} (q, x) (p, c) = cc in
      let here : (q == p) ≡ true = ground arith in
      (
        [],
        cs,
        ap (λ (t : ℕ × Coro). t ∷ cs) pair,
        tt,
        ap (λ (t : Coro). t.is_finished) (sym whole) ∙ done,
        rw here refl,
      )
  | inr alive ↦
      let (before, after, split, all, done, left) =
        find_finished-first cs {p = p} {c = c} d.1 (ground (arith, e, alive)) in
      let other : (p == q) ≡ false =
        absent-middle q p c before after (subst (λ xs. IsAbsent q xs) split d.0) in
      let away : (q == p) ≡ false = ground arith in
      (
        (q, x) ∷ before,
        after,
        ap (λ (t : Coros). (q, x) ∷ t) split,
        (alive, all),
        done,
        rw away (ap (λ (t : Coros). (q, x) ∷ t) left),
      )
]

-- A round of coro_sched_wait, over coroutines at different addresses: it returns NULL only from an
-- empty list, a coroutine only if that is the first finished one, with all others left in their order,
-- and it yields to the first of the list only if all are alive.
pub coro_sched_wait-Chosen : (cs : Coros) → IsDistinct cs → Chosen cs (coro_sched_wait cs)
unfolding coro_sched_wait
coro_sched_wait-Chosen [] d = nobody refl
coro_sched_wait-Chosen ((p, c) ∷ cs) d = elim (Option-cases (find_finished ((p, c) ∷ cs))) [
  | inl nothing ↦
      rw (nothing, coro_sched_wait) (all_alive p c cs refl (none_finished ((p, c) ∷ cs) nothing))
  | inr ((q, x), e) ↦
      let (before, after, split, all, done, left) = find_finished-first ((p, c) ∷ cs) d e in
      rw (e, coro_sched_wait, left) (chosen before q x after split all done)
]
