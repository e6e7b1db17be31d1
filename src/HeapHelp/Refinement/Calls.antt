-- ===== src/HeapHelp/Refinement/Calls.antt =====
-- Each call does what the specification says.
use iu_sp.Base.{
  ℕ, ◌+◌, ◌*◌, ◌^◌, ◌%◌, ◌≡◌, ◌⊎◌, refl, sym, subst, ap, ◌∙◌, Bool, true, false, not, ◌||◌, Option,
  none, some, ◌==◌, if◌then◌else◌, Run, ok, ◌>>=◌, ◌>>◌, assert, Bool-cases, inl, inr,
}
use iu_sp.HeapHelp.State.{Ptr, Tracker, in_buffer}
use iu_sp.HeapHelp.Bodies.{
  Answer, enter, leave, default_free, default_other, free_body, freeaddrinfo_body, trace_result,
}
use iu_sp.HeapHelp.Init.{Setup, heaph_touch}
use iu_sp.HeapHelp.Calls.{free, freeaddrinfo}
use iu_sp.HeapHelp.Spec.{
  Call, mallocs, callocs, reallocs, strdups, frees, getlines, getaddrinfos, freeaddrinfos, Live,
  allocate, release, old_block, fits, spec, Implements, Refines, aborts, goes, call,
}
use iu_sp.HeapHelp.Refinement.Steps.{static-in_buffer, alloc_free-release}
use iu_sp.HeapHelp.Refinement.Equations.{
  touched, malloc-trace, calloc-trace, realloc-trace, strdup-trace, getline-trace,
  getaddrinfo-trace,
}
use iu_sp.HeapHelp.Refinement.Bodies.{
  state, fresh, enter-Implements, leave-Implements, trace_result-allocate, trace_realloc-move,
  trace_line-reread,
}

fits-cases : (a b c : Bool) → (a || b || c) ≡ true → (a ≡ true) ⊎ (b ≡ true) ⊎ (c ≡ true)
fits-cases true b c e = inl refl
fits-cases false true c e = inr (inl refl)
fits-cases false false c e = inr (inr e)

-- the end of free, and of freeaddrinfo
free-goes :
    {buf size : ℕ} (ans : Answer) (p : Ptr) {o : Option Live} {m : Run Tracker}
    → Refines buf size 1 o m
    → Refines buf size 0 o (m >>= λ u. default_free u.source ans.buf p u >>= λ v. ok (leave v))
unfolding default_free
free-goes ans p aborts = aborts
free-goes {buf} {size} ans p (goes {s = s} {t = u} j) =
    subst (Refines buf size 0 (some s))
      (sym (ap (λ f. default_free f ans.buf p u >>= λ v. ok (leave v)) j.found))
      (goes (leave-Implements j))

freeaddrinfo-goes :
    {buf size : ℕ} (ans : Answer) {o : Option Live} {m : Run Tracker}
    → Refines buf size 1 o m
    → Refines buf size 0 o (m >>= λ u. default_other u.source ans u >>= λ (_, v). ok (leave v))
unfolding default_other
freeaddrinfo-goes ans aborts = aborts
freeaddrinfo-goes {buf} {size} ans (goes {s = s} {t = u} j) =
    subst (Refines buf size 0 (some s))
      (sym (ap (λ f. default_other f ans u >>= λ (_, v). ok (leave v)) j.found))
      (goes (leave-Implements j))

module _ {buf size : ℕ} {t : Tracker} {s : Live} (i : Implements buf size 0 t s) (setup : Setup)
    (ans : Answer) where
  inside : Implements buf size 1 (enter t) s
  inside = enter-Implements i

  allocated :
      (n : ℕ)
      → ((ans.result == 0) ≡ true)
        ⊎ ((ans.result == 0) ≡ true)
        ⊎ (fresh buf size ans.result s ≡ true)
      → Refines buf size 0
          (allocate ans.result s)
          (state (trace_result n ans (ans.result, enter t)))
  allocated n (inl e) = trace_result-allocate inside ans n (inl e)
  allocated n (inr e) = trace_result-allocate inside ans n e

  -- a call that has to be on a block of the C library
  guarded :
      (p : Ptr) (m : Run Tracker) (o : Option Live)
      → (in_buffer buf size p ≡ false → Refines buf size 0 o m)
      → Refines buf size 0
          (if in_buffer buf size p then none else o)
          (assert (not (in_buffer buf size p)) >> m)
  guarded p m o r = elim (Bool-cases (in_buffer buf size p)) [
    | inl e ↦ rw e aborts
    | inr e ↦ rw e (r e)
  ]

  getaddrinfo-allocate :
      (rc n : ℕ)
      → ((ans.result == 0) ≡ true)
        ⊎ ((ans.result == 0) ≡ true)
        ⊎ (fresh buf size ans.result s ≡ true)
      → Refines buf size 0 (if rc == 0 then allocate ans.result s else some s) (
          state (
            if rc == 0
            then trace_result n ans (ans.result, enter t)
            else ok (ans.result, leave (enter t))))
  getaddrinfo-allocate rc n new = elim (Bool-cases (rc == 0)) [
    | inl e ↦ rw e (allocated n new)
    | inr e ↦ rw e (goes (leave-Implements inside))
  ]

  -- NULL, or a block of the static allocator
  ignored :
      (b c : Bool) {o : Option Live} {m : Run Tracker}
      → (c ≡ false → Refines buf size 0 o m)
      → Refines buf size 0
          (if b || c then some s else o)
          (if b then ok t else if c then ok t else m)
  ignored true c r = goes i
  ignored false true r = goes i
  ignored false false r = r refl

  unless_null :
      (b : Bool) {o : Option Live} {m : Run Tracker}
      → Refines buf size 0 o m
      → Refines buf size 0 (if b then some s else o) (if b then ok t else m)
  unless_null true r = goes i
  unless_null false r = r

  pub free-release :
      (p : Ptr)
      → Refines buf size 0
          (if (p == 0) || in_buffer buf size p then some s else release p s)
          (free setup ans p t)
  unfolding free free_body
  free-release p =
      subst (Refines buf size 0 _)
        (sym (
          ap
            (λ b.
              if p == 0
              then ok t
              else if b
              then ok t
              else (heaph_touch setup t >>= free_body ans p))
            (static-in_buffer i p)))
        (ignored (p == 0) (in_buffer buf size p) λ dynamic.
          subst (Refines buf size 0 (release p s)) (sym (touched i setup ans (free_body ans p)))
            (free-goes ans p (alloc_free-release inside p dynamic)))

  freeaddrinfo-release :
      (p : Ptr)
      → Refines buf size 0
          (if p == 0 then some s else if in_buffer buf size p then none else release p s)
          (freeaddrinfo setup ans p t)
  unfolding freeaddrinfo freeaddrinfo_body
  freeaddrinfo-release p =
      subst (Refines buf size 0 _)
        (sym (
          ap
            (λ b.
              if p == 0
              then ok t
              else assert (not b) >> (heaph_touch setup t >>= freeaddrinfo_body ans p))
            (static-in_buffer i p)))
        (unless_null (p == 0) (
          guarded p _ _ λ dynamic.
            subst (Refines buf size 0 (release p s))
              (sym (touched i setup ans (freeaddrinfo_body ans p)))
              (freeaddrinfo-goes ans (alloc_free-release inside p dynamic))))

  -- a guard in front of a call's result
  state-assert :
      (b : Bool) (m : Run (Ptr × Tracker)) → (assert b >> state m) ≡ state (assert b >> m)
  state-assert true m = refl
  state-assert false m = refl

  guarded-state :
      (p : Ptr) (m : Run (Ptr × Tracker)) {o : Option Live}
      → (in_buffer buf size p ≡ false → Refines buf size 0 o (state m))
      → Refines buf size 0
          (if in_buffer buf size p then none else o)
          (state (assert (not (in_buffer buf size p)) >> m))
  guarded-state p m {o} r =
      subst (Refines buf size 0 _) (state-assert (not (in_buffer buf size p)) m)
        (guarded p (state m) o r)

  old-dynamic : (p : Ptr) → in_buffer buf size (if in_buffer buf size p then 0 else p) ≡ false
  old-dynamic p = elim (Bool-cases (in_buffer buf size p)) [
    | inl e ↦ rw e refl
    | inr e ↦ ap (λ b. in_buffer buf size (if b then 0 else p)) e ∙ e
  ]

  -- what the C library answers
  answers :
      (c : Call)
      → fits buf size ans c s ≡ true
      → ((ans.result == 0) ≡ true)
        ⊎ ((ans.result == old_block buf size c) ≡ true)
        ⊎ (fresh buf size ans.result s ≡ true)
  answers c f = fits-cases (ans.result == 0) (ans.result == old_block buf size c) _ f

  stated :
      {o : Option Live} {m n : Run (Ptr × Tracker)}
      → m ≡ n
      → Refines buf size 0 o (state n)
      → Refines buf size 0 o (state m)
  stated {o} e r = subst (λ k. Refines buf size 0 o (state k)) (sym e) r

  pub call-Refines :
      (c : Call)
      → fits buf size ans c s ≡ true
      → Refines buf size 0 (spec buf size ans c s) (call setup ans c t)
  unfolding spec call
  call-Refines (mallocs n) f =
      stated (malloc-trace i setup ans n) (allocated n (answers (mallocs n) f))
  call-Refines (callocs num n) f =
      stated (calloc-trace i setup ans num n)
        (allocated (num * n % 2 ^ 64) (answers (callocs num n) f))
  call-Refines (reallocs p n) f = stated (realloc-trace i setup ans p n) (
      trace_realloc-move inside ans n (if in_buffer buf size p then 0 else p) (old-dynamic p)
        (answers (reallocs p n) f))
  call-Refines (strdups p n) f =
      stated (strdup-trace i setup ans p n)
        (guarded-state p _ λ dynamic. allocated (n + 1) (answers (strdups p n) f))
  call-Refines (frees p) f = free-release p
  call-Refines (getlines p n) f = stated (getline-trace i setup ans p n) (
      guarded-state p _
        λ dynamic. trace_line-reread inside ans p n dynamic (answers (getlines p n) f))
  call-Refines (getaddrinfos rc n) f =
      stated (getaddrinfo-trace i setup ans rc n)
        (getaddrinfo-allocate rc n (answers (getaddrinfos rc n) f))
  call-Refines (freeaddrinfos p) f = freeaddrinfo-release p
