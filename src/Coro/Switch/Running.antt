-- ===== src/Coro/Switch/Running.antt =====
-- Which coroutines are in the list and have not returned, through the changes of the list.
use iu_sp.Base.{ℕ, ◌≡◌, false, some, [], ◌∷◌, ◌++◌, inl, inr, All, arith, ◌==◌, Bool-cases}
use iu_sp.Int.{ℤ}
use iu_sp.Coro.{Coro, Coros, count_switch, finish_coro, yield_target}
use iu_sp.Coro.Waiting.{IsAlive, IsAbsent, IsDistinct}
use iu_sp.Coro.Rounds.{IsRunning}

pub IsRunning-present : (q p : ℕ) (cs : Coros) → IsRunning q cs → IsAbsent p cs → (q == p) ≡ false
IsRunning-present q p [] h absent = absurd h
IsRunning-present q p ((r, c) ∷ cs) (inl here) absent = ground (arith, here.0, absent.0)
IsRunning-present q p ((r, c) ∷ cs) (inr later) absent = IsRunning-present q p cs later absent.1

pub IsRunning-kept :
    (q : ℕ) (before : Coros) (e : ℕ × Coro) (after : Coros)
    → IsRunning q (before ++ after)
    → IsRunning q (before ++ e ∷ after)
IsRunning-kept q [] e after h = inr h
IsRunning-kept q (x ∷ before) e after (inl h) = inl h
IsRunning-kept q (x ∷ before) e after (inr h) = inr (IsRunning-kept q before e after h)

module _ (p : ℕ) where
  pub count_switch-IsAbsent : (q : ℕ) (cs : Coros) → IsAbsent q cs → IsAbsent q (count_switch p cs)
  unfolding count_switch
  count_switch-IsAbsent q [] h = tt
  count_switch-IsAbsent q ((r, c) ∷ cs) h = elim (Bool-cases (r == p)) [
    | inl here ↦ rw here h
    | inr away ↦ rw away (h.0, count_switch-IsAbsent q cs h.1)
  ]

  pub count_switch-IsDistinct : (cs : Coros) → IsDistinct cs → IsDistinct (count_switch p cs)
  unfolding count_switch
  count_switch-IsDistinct [] d = tt
  count_switch-IsDistinct ((r, c) ∷ cs) d = elim (Bool-cases (r == p)) [
    | inl here ↦ rw here d
    | inr away ↦ rw away (count_switch-IsAbsent r cs d.0, count_switch-IsDistinct cs d.1)
  ]

  pub count_switch-IsAlive : (cs : Coros) → All IsAlive cs → All IsAlive (count_switch p cs)
  unfolding count_switch
  count_switch-IsAlive [] h = tt
  count_switch-IsAlive ((r, c) ∷ cs) h = elim (Bool-cases (r == p)) [
    | inl here ↦ rw here h
    | inr away ↦ rw away (h.0, count_switch-IsAlive cs h.1)
  ]

  pub count_switch-IsRunning :
      (q : ℕ) (cs : Coros) → IsRunning q cs → IsRunning q (count_switch p cs)
  unfolding count_switch
  count_switch-IsRunning q [] h = h
  count_switch-IsRunning q ((r, c) ∷ cs) h = elim (Bool-cases (r == p)) [
    | inl here ↦ rw here h
    | inr away ↦
        rw away
          (elim h [ inl first ↦ inl first | inr later ↦ inr (count_switch-IsRunning q cs later) ])
  ]

  pub IsRunning-count_switch :
      (q : ℕ) (cs : Coros) → IsRunning q (count_switch p cs) → IsRunning q cs
  unfolding count_switch
  IsRunning-count_switch q [] h = h
  IsRunning-count_switch q ((r, c) ∷ cs) h = elim (Bool-cases (r == p)) [
    | inl here ↦ rw here at h
    | inr away ↦ elim (rw away at h) [
      | inl first ↦ inl first
      | inr later ↦ inr (IsRunning-count_switch q cs later)
    ]
  ]

  -- the one that returns is not running any more
  pub IsRunning-finish_coro :
      (value : ℤ) (q : ℕ) (cs : Coros)
      → IsDistinct cs
      → IsRunning q (finish_coro p value cs)
      → IsRunning q cs × ((q == p) ≡ false)
  unfolding finish_coro
  IsRunning-finish_coro value q [] d h = absurd h
  IsRunning-finish_coro value q ((r, c) ∷ cs) d h = elim (Bool-cases (r == p)) [
    | inl here ↦ elim (rw here at h) [
      | inl first ↦ absurd (ground (arith, first.1))
      | inr later ↦
          let other = IsRunning-present q r cs later d.0 in (inr later, ground (arith, other, here))
    ]
    | inr away ↦ elim (rw away at h) [
      | inl first ↦ (inl first, ground (arith, first.0, away))
      | inr later ↦ let below = IsRunning-finish_coro value q cs d.1 later in (inr below.0, below.1)
    ]
  ]

  pub finish_coro-IsAbsent :
      (value : ℤ) (q : ℕ) (cs : Coros) → IsAbsent q cs → IsAbsent q (finish_coro p value cs)
  unfolding finish_coro
  finish_coro-IsAbsent value q [] h = tt
  finish_coro-IsAbsent value q ((r, c) ∷ cs) h = elim (Bool-cases (r == p)) [
    | inl here ↦ rw here h
    | inr away ↦ rw away (h.0, finish_coro-IsAbsent value q cs h.1)
  ]

  pub finish_coro-IsDistinct :
      (value : ℤ) (cs : Coros) → IsDistinct cs → IsDistinct (finish_coro p value cs)
  unfolding finish_coro
  finish_coro-IsDistinct value [] d = tt
  finish_coro-IsDistinct value ((r, c) ∷ cs) d = elim (Bool-cases (r == p)) [
    | inl here ↦ rw here d
    | inr away ↦ rw away (finish_coro-IsAbsent value r cs d.0, finish_coro-IsDistinct value cs d.1)
  ]

  -- whom a coroutine yields to runs, and is another
  pub yield_target-IsRunning :
      (q : ℕ) (cs : Coros)
      → IsDistinct cs
      → All IsAlive cs
      → yield_target p cs ≡ some q
      → IsRunning q cs × ((q == p) ≡ false)
  unfolding yield_target
  yield_target-IsRunning q [] d alive e = cc
  yield_target-IsRunning q ((r, c) ∷ []) d alive e = elim (Bool-cases (r == p)) [
    | inl here ↦ let never = rw here at e in cc
    | inr away ↦ let never = rw away at e in cc
  ]
  yield_target-IsRunning q ((r, c) ∷ (s, x) ∷ cs) d alive e = elim (Bool-cases (r == p)) [
    | inl here ↦
        let next = rw here at e in
        let same : s ≡ q = cc in (inr (inl (same, alive.1.0)), ground (arith, same, here, d.0.0))
    | inr away ↦
        let below = yield_target-IsRunning q ((s, x) ∷ cs) d.1 alive.1 (rw away at e) in
        (inr below.0, below.1)
  ]
