-- ===== src/HeapHelp/Aside.antt =====
-- Calls that the tracker leaves aside: inside of other calls, and after the report.
use iu_sp.Base.{
  ℕ, ◌+◌, ◌-◌, ◌*◌, ◌^◌, ◌%◌, ◌≡◌, refl, ap, ◌∙◌, Bool, true, false, not, ◌||◌, ◌&&◌, List, arith,
  ltb, ◌==◌, if◌then◌else◌, if-same, Run, ok, ◌>>=◌, ◌>>◌, assert,
}
use iu_sp.HeapHelp.State.{Ptr, Source, Tracker, alloc_is_static}
use iu_sp.HeapHelp.Track.{alloc_trace_new, alloc_free}
use iu_sp.HeapHelp.Bodies.{
  Answer, enter, leave, default_malloc, default_calloc, default_free, default_other, malloc_body,
  calloc_body, realloc_body, free_body, trace_result, trace_realloc,
}
use iu_sp.HeapHelp.Init.{Setup, heaph_touch, heaph_touch-done}
use iu_sp.HeapHelp.Calls.{malloc, calloc, realloc, free}

pub record IsAside (t : Tracker) : Type 0 where
  pub init_done : t.is_init_done ≡ true
  pub found : t.source ≡ Source.system
  pub aside : (ltb 0 t.depth || t.is_exit_done) ≡ true

entered : (t : Tracker) → leave (enter t) ≡ t
entered t =
    let same : t.depth + 1 - 1 ≡ t.depth = omega arith in ap (λ n. record t { depth = n }) same

-- the tests of alloc_trace_new, and of alloc_free
module _ {A : Type 0} {m : A} (k : Run A) where
  trace_tests :
      (static nested entered initialised exited : Bool)
      → (nested || exited) ≡ true
      → entered ≡ true
      → initialised ≡ true
      → (if static
          then ok m
          else if nested
          then ok m
          else assert entered >> assert initialised >> (if exited then ok m else k))
        ≡ ok m
  trace_tests true nested entered initialised exited f fe fi = refl
  trace_tests false true entered initialised exited f fe fi = refl
  trace_tests false false true true true f fe fi = refl
  trace_tests false false entered initialised false f fe fi = ground arith
  trace_tests false false entered false true f fe fi = ground arith
  trace_tests false false false true true f fe fi = ground arith

  free_tests :
      (static nested initialised exited : Bool)
      → (nested || exited) ≡ true
      → initialised ≡ true
      → (if static
          then ok m
          else if nested
          then ok m
          else assert initialised >> (if exited then ok m else k))
        ≡ ok m
  free_tests static nested initialised exited f fi =
      trace_tests static nested true initialised exited f refl fi

module _ {t : Tracker} (v : IsAside t) (setup : Setup) (ans : Answer) where
  nested : (ltb 1 (t.depth + 1) || t.is_exit_done) ≡ true
  nested =
      let same : ltb 1 (t.depth + 1) ≡ ltb 0 t.depth = ground arith in
      ap (λ b. b || t.is_exit_done) same ∙ v.aside

  alloc_trace_new-aside :
      (p : Ptr) (n : ℕ) (backtrace : List ℕ)
      → alloc_trace_new p n backtrace (enter t) ≡ ok (enter t)
  unfolding alloc_trace_new
  alloc_trace_new-aside p n backtrace =
      trace_tests _ (alloc_is_static (enter t) p) (ltb 1 (t.depth + 1)) (ltb 0 (t.depth + 1))
        t.is_init_done t.is_exit_done nested (ground arith) v.init_done

  alloc_free-aside : (p : Ptr) → alloc_free p (enter t) ≡ ok (enter t)
  unfolding alloc_free
  alloc_free-aside p =
      free_tests _ (alloc_is_static (enter t) p) (ltb 1 (t.depth + 1)) t.is_init_done t.is_exit_done
        nested v.init_done

  touched : {A : Type 0} (f : Tracker → Run A) → (heaph_touch setup t >>= f) ≡ f t
  touched f = ap (λ m. m >>= f) (heaph_touch-done setup t v.init_done)

  -- the end of a call
  abbrev answered : Tracker → Run (Ptr × Tracker)
  answered u = ok (ans.result, leave u)

  ended : answered (enter t) ≡ ok (ans.result, t)
  ended = ap (λ u. ok (ans.result, u)) (entered t)

  traced :
      (n : ℕ)
      → (alloc_trace_new ans.result n ans.backtrace (enter t) >>= answered) ≡ ok (ans.result, t)
  traced n = ap (λ m. m >>= answered) (alloc_trace_new-aside ans.result n ans.backtrace) ∙ ended

  trace_result-aside : (n : ℕ) → trace_result n ans (ans.result, enter t) ≡ ok (ans.result, t)
  unfolding trace_result
  trace_result-aside n = if-same (ans.result == 0) ended (traced n)

  trace_realloc-aside :
      (p : Ptr) (n : ℕ) → trace_realloc ans p n (ans.result, enter t) ≡ ok (ans.result, t)
  unfolding trace_realloc
  trace_realloc-aside p n =
      let trace = λ (u : Tracker). alloc_trace_new ans.result n ans.backtrace u >>= answered in
      if-same ((p == 0) && not (ans.result == 0)) (traced n) (
        if-same (not (p == 0) && (ans.result == 0))
          (ap (λ m. m >>= answered) (alloc_free-aside p) ∙ ended)
          (if-same (not (p == 0) && not (ans.result == p))
            (ap (λ m. m >>= trace) (alloc_free-aside p) ∙ traced n) ended))

  free_body-aside : (p : Ptr) → free_body ans p t ≡ ok t
  unfolding free_body default_free
  free_body-aside p =
      ap (λ m. m >>= λ u. default_free u.source ans.buf p u >>= λ v. ok (leave v))
        (alloc_free-aside p)
      ∙ ap (λ f. default_free f ans.buf p (enter t) >>= λ v. ok (leave v)) v.found
      ∙ ap ok (entered t)

  malloc-aside : (n : ℕ) → malloc setup ans n t ≡ ok (ans.result, t)
  unfolding malloc malloc_body default_malloc
  malloc-aside n =
      touched (malloc_body ans n)
      ∙ ap (λ f. default_malloc f ans n (enter t) >>= trace_result n ans) v.found
      ∙ trace_result-aside n

  calloc-aside : (num n : ℕ) → calloc setup ans num n t ≡ ok (ans.result, t)
  unfolding calloc calloc_body default_calloc
  calloc-aside num n =
      let bytes = num * n % 2 ^ 64 in
      touched (calloc_body ans num n)
      ∙ ap (λ f. default_calloc f ans num n (enter t) >>= trace_result bytes ans) v.found
      ∙ trace_result-aside bytes

  realloc-aside : (p : Ptr) (n : ℕ) → realloc setup ans p n t ≡ ok (ans.result, t)
  unfolding realloc realloc_body default_other
  realloc-aside p n =
      let q = if alloc_is_static t p then 0 else p in
      touched (realloc_body ans p n)
      ∙ ap (λ f. default_other f ans (enter t) >>= trace_realloc ans q n) v.found
      ∙ trace_realloc-aside q n

  free-aside : (p : Ptr) → free setup ans p t ≡ ok t
  unfolding free
  free-aside p =
      if-same (p == 0) refl
        (if-same (alloc_is_static t p) refl (touched (free_body ans p) ∙ free_body-aside p))

-- In an initialised tracker, inside of a call or after the report, malloc, calloc, realloc and free
-- return what the C library answers and change nothing.
pub aside_unchanged :
    (setup : Setup) (ans : Answer) (p : Ptr) (num size : ℕ) (t : Tracker)
    → IsAside t
    → (malloc setup ans size t ≡ ok (ans.result, t))
      × (calloc setup ans num size t ≡ ok (ans.result, t))
      × (realloc setup ans p size t ≡ ok (ans.result, t))
      × (free setup ans p t ≡ ok t)
aside_unchanged setup ans p num size t v = (
  malloc-aside v setup ans size,
  calloc-aside v setup ans num size,
  realloc-aside v setup ans p size,
  free-aside v setup ans p,
)
