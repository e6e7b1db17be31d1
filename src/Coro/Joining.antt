-- ===== src/Coro/Joining.antt =====
-- The loop of homework-01/solution.c that waits for all coroutines, under a contract for their turns.
use iu_sp.Base.{
  ℕ, zero, suc, ◌+◌, ◌<◌, ◌≡◌, ap, subst, true, false, Option, none, some, [], ◌∷◌, ◌++◌, arith,
  total, Run, ok, ◌>>=◌, Returns, returns, Returns-bind, inl, inr,
}
use iu_sp.Coro.{Coro, Coros, Wait}
use iu_sp.Coro.Running.{CoroTurn, World, run_turns, join_all}
use iu_sp.Coro.Waiting.{IsDistinct, Chosen, nobody, chosen, all_alive, coro_sched_wait-Chosen}
use iu_sp.Coro.Joined.{weight, has_any, All-dropped, IsDistinct-dropped, total-dropped}
use iu_sp.Coro.Rounds.{IsRunning, Contract, Turned, IsFitting, todo, RoundEnds, run_turns-RoundEnds}

IsRunning-dropped :
    (q : ℕ) (before : Coros) (p : ℕ) (c : Coro) (after : Coros)
    → c.is_finished ≡ true
    → IsRunning q (before ++ (p, c) ∷ after)
    → IsRunning q (before ++ after)
IsRunning-dropped q [] p c after done (inl h) = absurd (ground (arith, done, h.1))
IsRunning-dropped q [] p c after done (inr h) = h
IsRunning-dropped q (e ∷ before) p c after done (inl h) = inl h
IsRunning-dropped q (e ∷ before) p c after done (inr h) =
    inr (IsRunning-dropped q before p c after done h)

module _ {B S : Type 0} (k : Contract B S) where
  abbrev pub JoinEnds : Option ((ℕ → B) × S) → Type 0
  JoinEnds none = k.Exits
  JoinEnds (some (g, u)) = k.Good g u × ((q : ℕ) → k.Busy q (g q) → ⊥)

  module _ (resume : ℕ → Coro → B → S → Run (CoroTurn B S))
      (law : (p : ℕ) (c : Coro) (f : ℕ → B) (s : S)
        → k.Good f s
        → k.Fits c (f p)
        → Returns (Turned k p c f (k.left (f p) + k.rest s)) (resume p c (f p) s)) where
    -- what the loop shows on some fuel
    abbrev JoinLaw : ℕ → Type 0
    JoinLaw fuel =
        (cs : Coros) (f : ℕ → B) (s : S)
        → IsDistinct cs
        → IsFitting k f cs
        → k.Good f s
        → ((q : ℕ) → k.Busy q (f q) → IsRunning q cs)
        → todo k cs f s < fuel
        → Returns JoinEnds (join_all resume fuel cs f s)

    -- a round of the loop, by what coro_sched_wait does
    round-JoinEnds :
        (fuel : ℕ) (cs : Coros) (f : ℕ → B) (s : S) {r : Wait}
        → Chosen cs r
        → IsDistinct cs
        → IsFitting k f cs
        → k.Good f s
        → ((q : ℕ) → k.Busy q (f q) → IsRunning q cs)
        → todo k cs f s < suc fuel
        → JoinLaw fuel
        → Returns JoinEnds (elim r [
          | Wait.returns_null ↦ ok (some (f, s))
          | Wait.returns_coro p c left ↦ join_all resume fuel left f s
          | Wait.yields_to p ↦ run_turns resume cs f s >>= λ r. elim r [
            | none ↦ ok none
            | some (ds, g, u) ↦ join_all resume fuel ds g u
          ]
        ])
    unfolding total
    round-JoinEnds fuel cs f s (nobody e) d fits good busy enough later =
        returns (good, λ q y. subst (IsRunning q) e (busy q y))
    round-JoinEnds fuel cs f s (chosen before p c after e alive done) d fits good busy enough
          later =
        let w : ℕ → ℕ = λ q. k.left (f q) in
        let spent : todo k (before ++ after) f s < fuel =
          omega
            (arith, enough, ap (total (weight w)) e, total-dropped w before after (p, c), one) in
        later (before ++ after) f s (IsDistinct-dropped before after (p, c) (subst IsDistinct e d))
          (All-dropped (λ (x : ℕ × Coro). x.1.is_finished ≡ false → k.Fits x.1 (f x.0)) before after
            (p, c) (subst (IsFitting k f) e fits)).1
          good (λ q y. IsRunning-dropped q before p c after done (subst (IsRunning q) e (busy q y)))
          spent
      where
        one : 0 < weight (λ q. k.left (f q)) (p, c)
        one = ground arith
    round-JoinEnds fuel cs f s (all_alive p c rest e alive) d fits good busy enough later =
        Returns-bind
          (run_turns-RoundEnds k resume law cs (λ q. ⊥) f s d alive fits good λ q y. inr (busy q y))
          λ r ends. go r ends
      where
        go :
            (r : Option (World B S))
            → RoundEnds k (λ q. ⊥) cs f s r
            → Returns JoinEnds
                (elim r [ none ↦ ok none | some (ds, g, u) ↦ join_all resume fuel ds g u ])
        go none ends = returns ends
        go (some (ds, g, u)) ends =
            let any : has_any cs ≡ 1 = ap has_any e in
            later ds g u ends.distinct ends.fitting ends.good
              (λ q y. elim (ends.busy q y) [ inl early ↦ absurd early | inr now ↦ now ])
              (omega (arith, ends.lighter, any, enough))

    -- Of coroutines at different addresses, the loop that waits for all ends, on fuel that exceeds what
    -- they have left to do; then none is busy, or one has exited.
    pub join_all-JoinEnds : (fuel : ℕ) → JoinLaw fuel
    unfolding join_all total
    join_all-JoinEnds zero cs f s d fits good busy enough = absurd (omega arith)
    join_all-JoinEnds (suc fuel) cs f s d fits good busy enough =
        round-JoinEnds fuel cs f s (coro_sched_wait-Chosen cs d) d fits good busy enough
          (join_all-JoinEnds fuel)
