-- ===== src/Coro/Rounds.antt =====
-- A round of turns of homework-01/libcoro.c, under a contract for each turn.
use iu_sp.Base.{
  ℕ, ◌+◌, ◌≤◌, ◌<◌, ◌≡◌, refl, sym, ap, ◌∙◌, subst, true, false, Option, none, some, [], ◌∷◌, ◌⊎◌,
  All, arith, ◌==◌, total, Run, ok, ◌>>=◌, Returns, returns, Returns-bind, Bool-cases, inl, inr,
  eqb→eq,
}
use iu_sp.Coro.{Coro, Coros, count_switch, finish_coro}
use iu_sp.Coro.Running.{CoroTurn, update_at, World, after_switch, run_turns}
use iu_sp.Coro.Waiting.{IsAlive, IsAbsent, IsDistinct}
use iu_sp.Coro.Joined.{weight, has_any}

-- the coroutine at `q` is in the list and has not returned
abbrev pub IsRunning : ℕ → Coros → Type 0
IsRunning q [] = ⊥
IsRunning q ((p, c) ∷ cs) = ((p ≡ q) × (c.is_finished ≡ false)) ⊎ IsRunning q cs

module _ {B : Type 0} (p : ℕ) (b : B) (f : ℕ → B) where
  pub update_at_self : update_at p b f p ≡ b
  update_at_self = let self : (p == p) ≡ true = ground arith in rw self refl

  pub update_at_other : (q : ℕ) → (q == p) ≡ false → update_at p b f q ≡ f q
  update_at_other q away = rw away refl

  total-away :
      (left : B → ℕ) (cs : Coros)
      → IsAbsent p cs
      → total (weight (λ q. left (update_at p b f q))) cs ≡ total (weight (λ q. left (f q))) cs
  unfolding total
  total-away left [] away = refl
  total-away left ((q, c) ∷ cs) away =
      let same : left (update_at p b f q) ≡ left (f q) = ap left (update_at_other q away.0) in
      ground (arith, same, total-away left cs away.1)

  All-away :
      (P : Coro → B → Type 0) (cs : Coros)
      → IsAbsent p cs
      → All (λ (e : ℕ × Coro). P e.1 (f e.0)) cs
      → All (λ (e : ℕ × Coro). P e.1 (update_at p b f e.0)) cs
  All-away P [] away h = tt
  All-away P ((q, c) ∷ cs) away h =
      (subst (P c) (sym (update_at_other q away.0)) h.0, All-away P cs away.1 h.1)

-- What a turn of a coroutine `c` at `p` keeps: `Good` of all that is remembered and shared, and `Fits`
-- of the coroutine and what it remembers. A coroutine that returns is not `Busy`, and a turn that ends
-- in a yield leaves less to do. `Exits` is why one exits.
pub record Contract (B S : Type 0) : Type 1 where
  pub Busy : ℕ → B → Type 0
  pub Fits : Coro → B → Type 0
  pub Good : (ℕ → B) → S → Type 0
  pub Exits : Type 0
  pub left : B → ℕ
  pub rest : S → ℕ

module _ {B S : Type 0} (k : Contract B S) where
  abbrev pub Turned : ℕ → Coro → (ℕ → B) → ℕ → CoroTurn B S → Type 0
  Turned p c f n (CoroTurn.yielded b u) =
      k.Good (update_at p b f) u
      × k.Fits (record c { switch_count = c.switch_count + 1 }) b
      × (k.left b + k.rest u < n)
  Turned p c f n (CoroTurn.returned value b u) =
      k.Good (update_at p b f) u × (k.Busy p b → ⊥) × (k.left b + k.rest u ≤ n)
  Turned p c f n CoroTurn.exited = k.Exits

  abbrev pub IsFitting : (ℕ → B) → Coros → Type 0
  IsFitting f cs = All (λ (e : ℕ × Coro). e.1.is_finished ≡ false → k.Fits e.1 (f e.0)) cs

  abbrev pub todo : Coros → (ℕ → B) → S → ℕ
  todo cs f s = total (weight (λ q. k.left (f q))) cs + k.rest s

  -- a round, where the coroutines in `Earlier` have had their turns
  pub record Went (Earlier : ℕ → Type 0) (cs : Coros) (f : ℕ → B) (s : S) (ds : Coros) (g : ℕ → B)
      (u : S) : Type 0 where
    pub absent : (q : ℕ) → IsAbsent q cs → IsAbsent q ds
    pub distinct : IsDistinct ds
    pub good : k.Good g u
    pub fitting : IsFitting g ds
    pub other : (q : ℕ) → IsAbsent q cs → g q ≡ f q
    pub busy : (q : ℕ) → k.Busy q (g q) → Earlier q ⊎ IsRunning q ds
    pub lighter : todo ds g u + has_any cs ≤ todo cs f s

  abbrev pub RoundEnds : (ℕ → Type 0) → Coros → (ℕ → B) → S → Option (World B S) → Type 0
  RoundEnds Earlier cs f s none = k.Exits
  RoundEnds Earlier cs f s (some (ds, g, u)) = Went Earlier cs f s ds g u

  -- after the first coroutine yielded
  module _ (Earlier : ℕ → Type 0) (p : ℕ) (c : Coro) (cs : Coros) (f : ℕ → B) (s : S) (b : B)
      (u : S) (absent : IsAbsent p cs) (alive : c.is_finished ≡ false)
      (fits : k.Fits (record c { switch_count = c.switch_count + 1 }) b)
      (less : k.left b + k.rest u < k.left (f p) + k.rest s) where
    RoundEnds-yielded :
        (r : Option (World B S))
        → RoundEnds (λ q. Earlier q ⊎ (p ≡ q)) cs (update_at p b f) u r
        → RoundEnds Earlier ((p, c) ∷ cs) f s (after_switch p c r)
    unfolding count_switch total
    RoundEnds-yielded none h = h
    RoundEnds-yielded (some (ds, g, v)) h =
        let self : (p == p) ≡ true = ground arith in
        let same : g p ≡ b = h.other p absent ∙ update_at_self p b f in
        rw self (record {
          absent = λ q a. (a.0, h.absent q a.1);
          distinct = (h.absent p absent, h.distinct);
          good = h.good;
          fitting = (
            λ e. subst (k.Fits (record c { switch_count = c.switch_count + 1 })) (sym same) fits,
            h.fitting,
          );
          other = λ q a.
              let away : (q == p) ≡ false = ground (arith, a.0) in
              h.other q a.1 ∙ update_at_other p b f q away;
          busy = λ q y. elim (h.busy q y) [
            | inl (inl early) ↦ inl early
            | inl (inr here) ↦ inr (inl (here, alive))
            | inr later ↦ inr (inr later)
          ];
          lighter =
              let before = total-away p b f k.left cs absent in
              let now : k.left (g p) ≡ k.left b = ap k.left same in
              ground (arith, before, now, h.lighter, less, alive);
        })

  module _ (resume : ℕ → Coro → B → S → Run (CoroTurn B S))
      (law : (p : ℕ) (c : Coro) (f : ℕ → B) (s : S)
        → k.Good f s
        → k.Fits c (f p)
        → Returns (Turned p c f (k.left (f p) + k.rest s)) (resume p c (f p) s)) where
    -- what a round of a list shows
    abbrev pub RoundLaw : Coros → Type 1
    RoundLaw cs =
        (Earlier : ℕ → Type 0) (f : ℕ → B) (s : S)
        → IsDistinct cs
        → All IsAlive cs
        → IsFitting f cs
        → k.Good f s
        → ((q : ℕ) → k.Busy q (f q) → Earlier q ⊎ IsRunning q cs)
        → Returns (RoundEnds Earlier cs f s) (run_turns resume cs f s)

    turn-RoundEnds :
        (Earlier : ℕ → Type 0) (p : ℕ) (c : Coro) (cs : Coros) (f : ℕ → B) (s : S)
        → IsDistinct ((p, c) ∷ cs)
        → All IsAlive ((p, c) ∷ cs)
        → IsFitting f ((p, c) ∷ cs)
        → ((q : ℕ) → k.Busy q (f q) → Earlier q ⊎ IsRunning q ((p, c) ∷ cs))
        → RoundLaw cs
        → (t : CoroTurn B S) → Turned p c f (k.left (f p) + k.rest s) t
        → Returns (RoundEnds Earlier ((p, c) ∷ cs) f s) (elim t [
          | CoroTurn.yielded b u ↦
              run_turns resume cs (update_at p b f) u >>= λ r. ok (after_switch p c r)
          | CoroTurn.returned value b u ↦
              ok (some (finish_coro p value ((p, c) ∷ cs), update_at p b f, u))
          | CoroTurn.exited ↦ ok none
        ])
    unfolding finish_coro total
    turn-RoundEnds Earlier p c cs f s d alive fits busy later (CoroTurn.yielded b u) turned =
        Returns-bind
          (later (λ q. Earlier q ⊎ (p ≡ q)) (update_at p b f) u d.1 alive.1
            (All-away p b f (λ c x. c.is_finished ≡ false → k.Fits c x) cs d.0 fits.1) turned.0
            waiting)
          λ r ends.
            returns (RoundEnds-yielded Earlier p c cs f s b u d.0 alive.0 turned.1 turned.2 r ends)
      where
        waiting : (q : ℕ) → k.Busy q (update_at p b f q) → (Earlier q ⊎ (p ≡ q)) ⊎ IsRunning q cs
        waiting q y = elim (Bool-cases (q == p)) [
          | inl here ↦ inl (inr (sym (eqb→eq _ _ here)))
          | inr away ↦ elim (busy q (subst (k.Busy q) (update_at_other p b f q away) y)) [
            | inl early ↦ inl (inl early)
            | inr (inl head) ↦ inl (inr head.0)
            | inr (inr after) ↦ inr after
          ]
        ]
    turn-RoundEnds Earlier p c cs f s d alive fits busy later (CoroTurn.returned value b u) turned =
        let self : (p == p) ≡ true = ground arith in
        rw self (
          returns (record {
            absent = λ q a. a;
            distinct = d;
            good = turned.0;
            fitting =
                (λ e. cc, All-away p b f (λ c x. c.is_finished ≡ false → k.Fits c x) cs d.0 fits.1);
            other = λ q a.
                let away : (q == p) ≡ false = ground (arith, a.0) in update_at_other p b f q away;
            busy = waiting;
            lighter =
                let before = total-away p b f k.left cs d.0 in
                ground (arith, before, turned.2, alive.0);
          }))
      where
        waiting :
            (q : ℕ)
            → k.Busy q (update_at p b f q)
            → Earlier q ⊎ IsRunning q ((p, record c { ret = value; is_finished = true }) ∷ cs)
        waiting q y = elim (Bool-cases (q == p)) [
          | inl here ↦
              let e : update_at p b f q ≡ b = rw here refl in
              absurd (turned.1 (subst (λ r. k.Busy r b) (eqb→eq _ _ here) (subst (k.Busy q) e y)))
          | inr away ↦ elim (busy q (subst (k.Busy q) (update_at_other p b f q away) y)) [
            | inl early ↦ inl early
            | inr (inl head) ↦ absurd (ground (arith, head.0, away))
            | inr (inr after) ↦ inr (inr after)
          ]
        ]
    turn-RoundEnds Earlier p c cs f s d alive fits busy later CoroTurn.exited turned =
        returns turned

    pub run_turns-RoundEnds : (cs : Coros) → RoundLaw cs
    unfolding run_turns total
    run_turns-RoundEnds [] Earlier f s d alive fits good busy = returns (record {
      absent = λ q a. tt;
      distinct = tt;
      good = good;
      fitting = tt;
      other = λ q a. refl;
      busy = busy;
      lighter = omega arith;
    })
    run_turns-RoundEnds ((p, c) ∷ cs) Earlier f s d alive fits good busy =
        Returns-bind (law p c f s good (fits.0 alive.0))
          (turn-RoundEnds Earlier p c cs f s d alive fits busy (run_turns-RoundEnds cs))
