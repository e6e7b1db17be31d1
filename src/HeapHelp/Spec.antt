-- ===== src/HeapHelp/Spec.antt =====
-- What the tracker promises: after any calls it knows the set of the live blocks, and it aborts the
-- program that frees anything else.
use iu_sp.Base.{
  ℕ, ◌≡◌, Bool, true, false, not, ◌||◌, ◌&&◌, Option, none, some, ◌==◌, if◌then◌else◌, total, Run,
  ok, fault, ◌>>=◌,
}
use iu_sp.HeapHelp.State.{Ptr, Source, Tracker, in_buffer}
use iu_sp.HeapHelp.Bodies.{Answer}
use iu_sp.HeapHelp.Init.{Setup}
use iu_sp.HeapHelp.Calls.{malloc, calloc, realloc, strdup, free, getline, getaddrinfo, freeaddrinfo}
use iu_sp.HeapHelp.Invariant.{IsTracking, holds}

-- the live blocks, by address
abbrev pub Live : Type 0
Live = Ptr → Bool

abbrev pub put : Ptr → Live → Live
put p s q = if p == q then true else s q

abbrev pub drop : Ptr → Live → Live
drop p s q = if p == q then false else s q

-- a call of the program, with its arguments
pub data Call : Type 0 where
  mallocs : (size : ℕ) → Call
  callocs : (num size : ℕ) → Call
  reallocs : (p : Ptr) (size : ℕ) → Call
  strdups : (p : Ptr) (length : ℕ) → Call
  frees : (p : Ptr) → Call
  getlines : (p : Ptr) (length : ℕ) → Call
  getaddrinfos : (rc entry_size : ℕ) → Call
  freeaddrinfos : (p : Ptr) → Call

-- a block that the C library has given, unless it is NULL
abbrev pub allocate : Ptr → Live → Option Live
allocate res s = if res == 0 then some s else some (put res s)

-- `none` where the program is aborted
abbrev pub release : Ptr → Live → Option Live
release p s = if s p then some (drop p s) else none

abbrev pub then_put : Ptr → Option Live → Option Live
then_put res none = none
then_put res (some s) = some (put res s)

-- a block `q` that realloc grows, shrinks or moves: a NULL answer frees it, even one for want of memory
abbrev pub move : (res q : Ptr) → Live → Option Live
move res q s =
    if q == 0
    then allocate res s
    else if res == 0
    then release q s
    else if res == q
    then some s
    else then_put res (release q s)

-- a line that getline reads again; it never gives NULL for one
abbrev pub reread : (res p : Ptr) → Live → Option Live
reread res p s =
    if p == 0
    then allocate res s
    else if res == 0
    then none
    else if p == res
    then some s
    else then_put res (release p s)

module _ (buf size : ℕ) where
  -- the block that a call may return again
  abbrev pub old_block : Call → Ptr
  old_block (reallocs p n) = if in_buffer buf size p then 0 else p
  old_block (getlines p n) = p
  old_block _ = 0

  -- What the C library answers to a call: NULL, the old block, or a block that is neither live nor in
  -- the static buffer.
  abbrev pub fits : Answer → Call → Live → Bool
  fits ans c s =
      (ans.result == 0)
      || (ans.result == old_block c)
      || (not (in_buffer buf size ans.result) && not (s ans.result))

  -- the live blocks after a call
  unfoldable pub spec : Answer → Call → Live → Option Live
  spec ans (mallocs n) s = allocate ans.result s
  spec ans (callocs num n) s = allocate ans.result s
  spec ans (reallocs p n) s = move ans.result (if in_buffer buf size p then 0 else p) s
  spec ans (strdups p n) s = if in_buffer buf size p then none else allocate ans.result s
  spec ans (frees p) s = if (p == 0) || in_buffer buf size p then some s else release p s
  spec ans (getlines p n) s = if in_buffer buf size p then none else reread ans.result p s
  spec ans (getaddrinfos rc n) s = if rc == 0 then allocate ans.result s else some s
  spec ans (freeaddrinfos p) s =
      if p == 0 then some s else if in_buffer buf size p then none else release p s

  -- a tracker in use, at a depth of calls, that knows the live blocks
  pub record Implements (depth : ℕ) (t : Tracker) (s : Live) : Type 0 where
    pub init_done : t.is_init_done ≡ true
    pub exit_open : t.is_exit_done ≡ false
    pub inside : t.depth ≡ depth
    pub unlocked : t.allocs_lock ≡ false
    pub found : t.source ≡ Source.system
    pub buf_kept : t.static_buf ≡ buf
    pub size_kept : t.static_size ≡ size
    pub tracking : IsTracking t
    pub agrees : (q : Ptr) → total (holds q) t.allocs ≡ (if s q then 1 else 0)

  -- the program goes on where the specification does, and is aborted where that is
  pub data Refines (depth : ℕ) : Option Live → Run Tracker → Type 0 where
    aborts : Refines depth none fault
    goes : {s : Live} {t : Tracker} → Implements depth t s → Refines depth (some s) (ok t)

-- the tracker after a call
unfoldable pub call : Setup → Answer → Call → Tracker → Run Tracker
call setup ans (mallocs n) t = malloc setup ans n t >>= λ r. ok r.1
call setup ans (callocs num n) t = calloc setup ans num n t >>= λ r. ok r.1
call setup ans (reallocs p n) t = realloc setup ans p n t >>= λ r. ok r.1
call setup ans (strdups p n) t = strdup setup ans p n t >>= λ r. ok r.1
call setup ans (frees p) t = free setup ans p t
call setup ans (getlines p n) t = getline setup ans p n t >>= λ r. ok r.1
call setup ans (getaddrinfos rc n) t = getaddrinfo setup ans rc n t >>= λ r. ok r.1
call setup ans (freeaddrinfos p) t = freeaddrinfo setup ans p t
