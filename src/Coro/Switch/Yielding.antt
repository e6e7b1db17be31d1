-- ===== src/Coro/Switch/Yielding.antt =====
-- A coroutine of homework-01/libcoro.c that yields or returns.
use iu_sp.Base.{
  ℕ, ◌≡◌, refl, sym, ap, subst, ◌∙◌, false, Option, none, some, inl, inr, arith, ◌==◌, eqb→eq,
  if◌then◌else◌, Bool-cases, Option-cases, Returns, returns,
}
use iu_sp.Int.{ℤ}
use iu_sp.Coro.{count_switch, yield_target}
use iu_sp.Coro.Rounds.{IsRunning}
use iu_sp.Coro.Switch.{Place, Saved, Machine, jump, coro_yield_to, place_of, coro_yield, leave_body}
use iu_sp.Coro.Switch.Running.{
  count_switch-IsDistinct, count_switch-IsAlive, count_switch-IsRunning, IsRunning-count_switch,
  IsRunning-finish_coro, finish_coro-IsDistinct, yield_target-IsRunning,
}
use iu_sp.Coro.Switch.Steady.{own, IsInside, IsSteady, settle, set_ctx-other, set_ctx_same}

module _ (m : Machine) (s : IsSteady m) (p : ℕ) (running : m.running ≡ Place.coroutine p) where
  inside : IsInside m (Place.coroutine p)
  inside = subst (IsInside m) running s.inside

  other_saved :
      (q : ℕ)
      → IsRunning q m.coro_list
      → (q == p) ≡ false
      → m.ctx q ≡ some (own (Place.coroutine q))
  other_saved q h away = elim (s.contexts q h) [
    | inl e ↦
        let both : Place.coroutine p ≡ Place.coroutine q = sym running ∙ e in
        let same : p ≡ q = cc in absurd (ground (arith, same, away))
    | inr e ↦ e
  ]

  -- its context is saved in its struct
  stored : ℕ → Option Saved
  stored q = if q == p then some (own (Place.coroutine p)) else m.ctx q

  stored_lem : (q : ℕ) → IsRunning q m.coro_list → stored q ≡ some (own (Place.coroutine q))
  unfolding stored
  stored_lem q h = elim (Bool-cases (q == p)) [
    | inl here ↦
        set_ctx_same m.ctx p q (some (own (Place.coroutine p))) here
        ∙ ap (λ r. some (own (Place.coroutine r))) (sym (eqb→eq _ _ here))
    | inr away ↦
        set_ctx-other m.ctx p q (some (own (Place.coroutine p))) away (other_saved q h away)
  ]

  -- the coroutines of the list after the switch is counted
  counted : (q : ℕ) → IsRunning q (count_switch p m.coro_list) → IsRunning q m.coro_list
  counted q h = IsRunning-count_switch p q m.coro_list h

  now : Machine
  now = record m { coro_this_ptr = some (Place.coroutine p); running = Place.coroutine p }

  yield_back : Returns IsSteady (coro_yield_to Place.scheduler now)
  unfolding coro_yield_to jump now stored
  yield_back = rw (inside.1) (
      returns (record {
        this = refl;
        distinct = count_switch-IsDistinct p m.coro_list s.distinct;
        contexts = λ q h. inr (stored_lem q (counted q h));
        inside = tt;
      }))

  yield_on :
      (q : ℕ)
      → yield_target p m.coro_list ≡ some q
      → Returns IsSteady (coro_yield_to (Place.coroutine q) now)
  unfolding coro_yield_to jump now stored
  yield_on q next =
      let (here, away) = yield_target-IsRunning p q m.coro_list s.distinct inside.2 next in
      rw (stored_lem q here) (
        returns (record {
          this = refl;
          distinct = count_switch-IsDistinct p m.coro_list s.distinct;
          contexts = λ r h. elim (Bool-cases (r == q)) [
            | inl same ↦ inl (ap Place.coroutine (sym (eqb→eq _ _ same)))
            | inr other ↦ inr (set_ctx-other stored q r none other (stored_lem r (counted r h)))
          ];
          inside = (
            inside.0,
            inside.1,
            count_switch-IsAlive p m.coro_list inside.2,
            count_switch-IsRunning p q m.coro_list here,
          );
        }))

  pub coro_yield-IsSteady : Returns IsSteady (coro_yield m)
  unfolding coro_yield now
  coro_yield-IsSteady =
      settle (λ m. Returns IsSteady (coro_yield m)) m s.this running
        (elim (Option-cases (yield_target p m.coro_list)) [
          | inl last ↦
              subst (λ to. Returns IsSteady (coro_yield_to to now)) (sym (ap place_of last))
                yield_back
          | inr (q, next) ↦
              subst (λ to. Returns IsSteady (coro_yield_to to now)) (sym (ap place_of next))
                (yield_on q next)
        ])

  pub leave_body-IsSteady : (value : ℤ) → Returns IsSteady (leave_body p value m)
  unfolding leave_body jump
  leave_body-IsSteady value =
      rw (inside.0, inside.1)
        (returns (record {
          this = refl;
          distinct = finish_coro-IsDistinct p value m.coro_list s.distinct;
          contexts = λ q h.
              let (before, away) = IsRunning-finish_coro p value q m.coro_list s.distinct h in
              inr (other_saved q before away);
          inside = tt;
        }))
