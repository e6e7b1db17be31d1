-- ===== src/HeapHelp/Startup.antt =====
-- The first call of heaph_touch: the C library's functions are looked up, and what that allocates
-- comes from the static buffer.
use iu_sp.Base.{
  ℕ, ◌+◌, ◌*◌, ◌^◌, ◌%◌, ◌≡◌, Bool, true, false, not, ◌||◌, ◌&&◌, List, [], ◌∷◌, ltb, ◌==◌,
  if◌then◌else◌, Run, ok, ◌>>=◌, ◌>>◌, assert,
}
use iu_sp.HeapHelp.State.{Ptr, Source, ReportMode, Tracker, initial, in_buffer, heaph_unlock}
use iu_sp.HeapHelp.Init.{Early, mallocs, callocs, frees, read_mode, Setup}
use iu_sp.HeapHelp.Spec.{Implements}

abbrev pub static_bytes : ℕ
static_bytes = 16 * 1024

-- The early calls fit the buffer at `buf`, of which `used` bytes are taken once it is `mapped`: they
-- leave a byte free and free only what they have.
unfoldable pub early_fit : (buf : Ptr) (mapped : Bool) (used : ℕ) → List Early → Bool
early_fit buf mapped used [] = true
early_fit buf mapped used (mallocs ans size ∷ es) =
    (ans.buf == buf) && ltb (used + size) static_bytes && early_fit buf true (used + size) es
early_fit buf mapped used (callocs ans num size ∷ es) =
    let bytes = size * num % 2 ^ 64 in
    (ans.buf == buf) && ltb (used + bytes) static_bytes && early_fit buf true (used + bytes) es
early_fit buf mapped used (frees ans p ∷ es) =
    ((p == 0) || (mapped && in_buffer buf static_bytes p)) && early_fit buf mapped used es

-- the tracker while the functions are looked up
abbrev early_state : (buf : Ptr) (mapped : Bool) (used : ℕ) → Tracker
early_state buf mapped used = record initial {
  init_lock = true;
  init_lock_count = 1;
  source = Source.static;
  static_buf = if mapped then buf else 0;
  static_size = if mapped then static_bytes else 0;
  static_used = used;
}

-- what heaph_touch leaves behind: a tracker at work, with no live block
abbrev pub IsStarted : Setup → Tracker → Type 0
IsStarted setup u =
    Implements u.static_buf u.static_size 0 u (λ _. false)
    × (u.report_mode ≡ read_mode setup.hh_report ReportMode.leaks)
    × (u.init_lock ≡ false)

abbrev started_state : Setup → Ptr → Bool → ℕ → Tracker
started_state setup buf mapped used = record (early_state buf mapped used) {
  init_lock = false;
  is_init_done = true;
  init_lock_count = 0;
  report_mode = read_mode setup.hh_report ReportMode.leaks;
  source = Source.system;
}

module _ (buf : Ptr) (real : (buf == 0) ≡ false) where
  abbrev IsEarly : Tracker → Type 0
  IsEarly u = (m : Bool) × (k : ℕ) × (u ≡ early_state buf m k)

  -- the rest of heaph_init and of heaph_touch
  abbrev finish : Setup → Tracker → Run Tracker
  finish setup u =
      let v : Tracker = record u {
        source = Source.system;
        report_mode = read_mode setup.hh_report u.report_mode;
      } in
      heaph_unlock (record v { is_init_done = true }) >>= λ w. assert (not v.is_init_done) >> ok w
