-- ===== src/HeapHelp/Refinement/Equations.antt =====
-- What each call does once heaph_touch and the pointers are out of the way.
use iu_sp.Base.{
  ℕ, ◌+◌, ◌*◌, ◌^◌, ◌%◌, ◌≡◌, refl, ap, ◌∙◌, Bool, true, false, not, ◌&&◌, ◌==◌, if◌then◌else◌, Run,
  ok, ◌>>=◌, ◌>>◌, assert,
}
use iu_sp.HeapHelp.State.{Ptr, Tracker, in_buffer, alloc_is_static}
use iu_sp.HeapHelp.Bodies.{
  Answer, enter, leave, default_malloc, default_calloc, default_other, malloc_body, calloc_body,
  strdup_body, realloc_body, getline_body, getaddrinfo_body, trace_result, trace_realloc,
  trace_line,
}
use iu_sp.HeapHelp.Init.{Setup, heaph_touch, heaph_touch-done}
use iu_sp.HeapHelp.Calls.{malloc, calloc, realloc, strdup, getline, getaddrinfo}
use iu_sp.HeapHelp.Spec.{Live, Implements}
use iu_sp.HeapHelp.Refinement.Steps.{static-in_buffer}
use iu_sp.HeapHelp.Refinement.Bodies.{enter-Implements}

-- the branches of getaddrinfo and of trace_result
if-and-not :
    {A : Type 0} (b c : Bool) (x y : A)
    → (if b && not c then x else y) ≡ (if b then (if c then y else x) else y)
if-and-not true true x y = refl
if-and-not true false x y = refl
if-and-not false c x y = refl

module _ {buf size : ℕ} {t : Tracker} {s : Live} (i : Implements buf size 0 t s) (setup : Setup)
    (ans : Answer) where
  -- heaph_touch has nothing to do
  pub touched : {A : Type 0} (f : Tracker → Run A) → (heaph_touch setup t >>= f) ≡ f t
  touched f = ap (λ m. m >>= f) (heaph_touch-done setup t i.init_done)

  pub malloc-trace : (n : ℕ) → malloc setup ans n t ≡ trace_result n ans (ans.result, enter t)
  unfolding malloc malloc_body default_malloc
  malloc-trace n =
      touched (malloc_body ans n)
      ∙ ap (λ f. default_malloc f ans n (enter t) >>= trace_result n ans) i.found

  pub calloc-trace :
      (num n : ℕ)
      → calloc setup ans num n t ≡ trace_result (num * n % 2 ^ 64) ans (ans.result, enter t)
  unfolding calloc calloc_body default_calloc
  calloc-trace num n =
      touched (calloc_body ans num n)
      ∙ ap (λ f. default_calloc f ans num n (enter t) >>= trace_result (num * n % 2 ^ 64) ans)
          i.found

  others-answer :
      {A : Type 0} (f : Ptr × Tracker → Run A)
      → (default_other t.source ans (enter t) >>= f) ≡ f (ans.result, enter t)
  unfolding default_other
  others-answer f = ap (λ g. default_other g ans (enter t) >>= f) i.found

  pub realloc-trace :
      (p : Ptr) (n : ℕ)
      → realloc setup ans p n t
        ≡ trace_realloc ans (if in_buffer buf size p then 0 else p) n (ans.result, enter t)
  unfolding realloc realloc_body
  realloc-trace p n =
      touched (realloc_body ans p n)
      ∙ others-answer (trace_realloc ans (if alloc_is_static t p then 0 else p) n)
      ∙ ap (λ b. trace_realloc ans (if b then 0 else p) n (ans.result, enter t))
          (static-in_buffer i p)

  pub strdup-trace :
      (p : Ptr) (n : ℕ)
      → strdup setup ans p n t
        ≡ (assert (not (in_buffer buf size p)) >> trace_result (n + 1) ans (ans.result, enter t))
  unfolding strdup strdup_body
  strdup-trace p n =
      touched (λ u.
        assert (not u.is_exit_done) >> assert (not (alloc_is_static u p)) >> strdup_body ans n u)
      ∙ ap (λ b. assert (not b) >> assert (not (alloc_is_static t p)) >> strdup_body ans n t)
          i.exit_open
      ∙ ap (λ b. assert (not b) >> strdup_body ans n t) (static-in_buffer i p)
      ∙ ap (λ m. assert (not (in_buffer buf size p)) >> m)
          (others-answer (trace_result (n + 1) ans))

  pub getline-trace :
      (p : Ptr) (n : ℕ)
      → getline setup ans p n t
        ≡ (assert (not (in_buffer buf size p)) >> trace_line ans p n (ans.result, enter t))
  unfolding getline getline_body
  getline-trace p n =
      touched (getline_body ans p n)
      ∙ ap (λ b. assert (not b) >> (default_other t.source ans (enter t) >>= trace_line ans p n))
          (static-in_buffer (enter-Implements i) p)
      ∙ ap (λ m. assert (not (in_buffer buf size p)) >> m) (others-answer (trace_line ans p n))

  pub getaddrinfo-trace :
      (rc n : ℕ)
      → getaddrinfo setup ans rc n t ≡ (
          if rc == 0
          then trace_result n ans (ans.result, enter t)
          else ok (ans.result, leave (enter t)))
  unfolding getaddrinfo getaddrinfo_body trace_result
  getaddrinfo-trace rc n =
      touched (getaddrinfo_body ans rc n)
      ∙ others-answer _
      ∙ if-and-not (rc == 0) (ans.result == 0) _ _
