-- ===== src/Coro/Joined.antt =====
-- The loop that waits for all coroutines ends, and gets each of them once.
use mathlib.Core.List.{Perm}
use mathlib.Core.List.Perm
use iu_sp.Base.{
  ℕ, zero, suc, ◌+◌, ◌-◌, ◌≤◌, ◌<◌, ◌≡◌, refl, sym, ap, subst, true, false, List, [], ◌∷◌, ◌++◌,
  All, arith, ◌==◌, if◌then◌else◌, total, ok, ◌>>=◌, Returns, returns, Returns-bind, Bool-cases,
  inl, inr,
}
use iu_sp.Int.{ℤ}
use iu_sp.Coro.{Coro, Coros, coro_status, count_switch, finish_coro, Wait}
use iu_sp.Coro.Turns.{Work, spend, turns, wait_all}
use iu_sp.Coro.Waiting.{
  IsAlive, IsAbsent, IsDistinct, Chosen, nobody, chosen, all_alive, coro_sched_wait-Chosen,
}

-- what is left to do for a coroutine: its yields, its return, and its return by coro_sched_wait
abbrev pub weight : Work → ℕ × Coro → ℕ
weight w (p, c) = if c.is_finished then 1 else 2 + w p

abbrev pub has_any : Coros → ℕ
has_any [] = 0
has_any (e ∷ cs) = 1

load_mono :
    (w w' : Work) (cs : Coros) → ((q : ℕ) → w q ≤ w' q) → total (weight w) cs ≤ total (weight w') cs
unfolding total
load_mono w w' [] h = omega arith
load_mono w w' ((p, c) ∷ cs) h = ground (arith, load_mono w w' cs h, h p)

pub All-dropped :
    (P : ℕ × Coro → Type 0) (before after : Coros) (e : ℕ × Coro)
    → All P (before ++ e ∷ after)
    → P e × All P (before ++ after)
All-dropped P [] after e h = h
All-dropped P (x ∷ before) after e h =
    let later = All-dropped P before after e h.1 in (later.0, (h.0, later.1))

pub IsDistinct-dropped :
    (before after : Coros) (e : ℕ × Coro)
    → IsDistinct (before ++ e ∷ after)
    → IsDistinct (before ++ after)
IsDistinct-dropped [] after e d = d.1
IsDistinct-dropped (x ∷ before) after e d = (
  (All-dropped (λ (y : ℕ × Coro). (y.0 == x.0) ≡ false) before after e d.0).1,
  IsDistinct-dropped before after e d.1,
)

pub total-dropped :
    (w : Work) (before after : Coros) (e : ℕ × Coro)
    → total (weight w) (before ++ e ∷ after) ≡ total (weight w) (before ++ after) + weight w e
unfolding total
total-dropped w [] after e = omega arith
total-dropped w (x ∷ before) after e = omega (arith, total-dropped w before after e)

module _ (result : ℕ → ℤ) where
  -- a coroutine that has returned has its result
  abbrev pub IsSettled : ℕ × Coro → Type 0
  IsSettled (p, c) = c.is_finished ≡ true → c.ret ≡ result p

  -- the coroutines with their results
  abbrev pub outcomes : Coros → List (ℕ × ℤ)
  outcomes [] = []
  outcomes ((p, c) ∷ cs) = (p, result p) ∷ outcomes cs

  record Turned (cs : Coros) (w : Work) (ds : Coros) (u : Work) : Type 0 where
    same : outcomes ds ≡ outcomes cs
    absent : (q : ℕ) → IsAbsent q cs → IsAbsent q ds
    distinct : IsDistinct ds
    settled : All IsSettled ds
    less : (q : ℕ) → u q ≤ w q
    lighter : total (weight u) ds + has_any cs ≤ total (weight w) cs

  turns-Turned :
      (cs : Coros) (w : Work)
      → IsDistinct cs
      → All IsAlive cs
      → All IsSettled cs
      → Turned cs w (turns result cs w).0 (turns result cs w).1
  unfolding turns finish_coro count_switch total
  turns-Turned [] w d alive settled = record {
    same = refl;
    absent = λ q h. tt;
    distinct = tt;
    settled = tt;
    less = λ q. omega arith;
    lighter = omega arith;
  }
  turns-Turned ((p, c) ∷ cs) w d alive settled =
      let self : (p == p) ≡ true = ground arith in
      elim (Bool-cases (w p == 0)) [
        | inl last ↦ rw last (
            rw self (record {
              same = refl;
              absent = λ q h. h;
              distinct = d;
              settled = (λ e. refl, settled.1);
              less = λ q. omega arith;
              lighter = ground (arith, alive.0);
            }))
        | inr more ↦
            let later = turns-Turned cs (spend p w) d.1 alive.1 settled.1 in
            let u = (turns result cs (spend p w)).1 in
            let mono = load_mono (spend p w) w cs (λ q. ground arith) in
            let here : u p ≤ w p - 1 = ground (arith, later.less p) in
            rw more (
              rw self (record {
                same = ap (λ l. (p, result p) ∷ l) later.same;
                absent = λ q h. (h.0, later.absent q h.1);
                distinct = (later.absent p d.0, later.distinct);
                settled = (settled.0, later.settled);
                less = λ q. ground (arith, later.less q);
                lighter = ground (arith, alive.0, later.lighter, mono, here, more);
              }))
      ]

  outcomes-dropped :
      (before after : Coros) (p : ℕ) (c : Coro)
      → Perm ((p, result p) ∷ outcomes (before ++ after)) (outcomes (before ++ (p, c) ∷ after))
  outcomes-dropped [] after p c = Perm.refl _
  outcomes-dropped ((q, d) ∷ before) after p c =
      Perm.trans (Perm.swap (q, result q) (p, result p) (outcomes (before ++ after)))
        (Perm.cons (q, result q) (outcomes-dropped before after p c))

  -- a round of the loop, by what coro_sched_wait does
  round-Perm :
      (fuel : ℕ) (cs : Coros) (w : Work) {r : Wait}
      → Chosen cs r
      → IsDistinct cs
      → All IsSettled cs
      → total (weight w) cs < suc fuel
      → ((ds : Coros) (u : Work)
          → IsDistinct ds
          → All IsSettled ds
          → total (weight u) ds < fuel
          → Returns (λ out. Perm out (outcomes ds)) (wait_all result fuel ds u))
      → Returns
          (λ out. Perm out (outcomes cs))
          (elim r [
            | Wait.returns_null ↦ ok []
            | Wait.returns_coro p c left ↦
                wait_all result fuel left w >>= λ out. ok ((p, coro_status c) ∷ out)
            | Wait.yields_to p ↦ wait_all result fuel (turns result cs w).0 (turns result cs w).1
          ])
  unfolding coro_status total
  round-Perm fuel cs w (nobody e) d settled enough later = rw e (returns (Perm.refl []))
  round-Perm fuel cs w (chosen before p c after e alive done) d settled enough later =
      let d' = subst IsDistinct e d in
      let s' = All-dropped IsSettled before after (p, c) (subst (All IsSettled) e settled) in
      let value : c.ret ≡ result p = s'.0 done in
      let spent : total (weight w) (before ++ after) < fuel =
        omega (arith, enough, ap (total (weight w)) e, total-dropped w before after (p, c), one) in
      Returns-bind
        (later (before ++ after) w (IsDistinct-dropped before after (p, c) d') s'.1 spent)
        λ out q. returns (
          subst (λ l. Perm ((p, c.ret) ∷ out) (outcomes l)) (sym e)
            (subst (λ v. Perm ((p, v) ∷ out) (outcomes (before ++ (p, c) ∷ after))) (sym value)
              (Perm.trans (Perm.cons (p, result p) q) (outcomes-dropped before after p c))))
    where
      one : 0 < weight w (p, c)
      one = ground arith
  round-Perm fuel cs w (all_alive p c rest e alive) d settled enough later =
      let t = turns-Turned cs w d alive settled in
      let any : has_any cs ≡ 1 = ap has_any e in
      subst
        (λ l.
          Returns (λ out. Perm out l)
            (wait_all result fuel (turns result cs w).0 (turns result cs w).1))
        t.same
        (later (turns result cs w).0 (turns result cs w).1 t.distinct t.settled
          (omega (arith, t.lighter, any, enough)))

  -- Of coroutines at different addresses that have their results if they are finished, the loop of
  -- calls of coro_sched_wait ends, whatever the number of their yields, on fuel that exceeds what they
  -- have left to do (two rounds a coroutine, and one for each yield); it gets each coroutine once, with
  -- the value that its function returns as its status.
  pub wait_all-Perm :
      (fuel : ℕ) (cs : Coros) (w : Work)
      → IsDistinct cs
      → All IsSettled cs
      → total (weight w) cs < fuel
      → Returns (λ out. Perm out (outcomes cs)) (wait_all result fuel cs w)
  unfolding wait_all coro_status
  wait_all-Perm zero cs w d settled enough = absurd (omega arith)
  wait_all-Perm (suc fuel) cs w d settled enough =
      round-Perm fuel cs w (coro_sched_wait-Chosen cs d) d settled enough
        (λ ds u d' s' e'. wait_all-Perm fuel ds u d' s' e')
