-- ===== src/Userfs/Session.antt =====
-- Sequences of calls of the file system, from the static initialisers on.
use iu_sp.Base.{
  ℕ, ◌+◌, ◌*◌, ◌^◌, ◌≤◌, List, [], ◌∷◌, arith, length, Run, ok, ◌>>=◌, Returns, returns,
  Returns-map, Returns-bind,
}
use iu_sp.Int.{ℤ}
use iu_sp.Userfs.Block.{block_size}
use iu_sp.Userfs.State.{Ptr, Name, File, Ufs, initial}
use iu_sp.Userfs.Open.{ufs_open}
use iu_sp.Userfs.Write.{ufs_write}
use iu_sp.Userfs.Read.{ufs_read}
use iu_sp.Userfs.Close.{ufs_close, ufs_delete, ufs_destroy}
use iu_sp.Userfs.Resize.{ufs_resize}
use iu_sp.Userfs.Written.Length.{write_cost}
use iu_sp.Userfs.Invariant.{IsValid, IsValid-weaken, initial-IsValid}
use iu_sp.Userfs.Safe.Open.{IsFresh, ufs_open-Returns}
use iu_sp.Userfs.Safe.Write.{ufs_write-IsValid}
use iu_sp.Userfs.Safe.Read.{ufs_read-IsValid}
use iu_sp.Userfs.Safe.Close.{ufs_close-IsValid, ufs_delete-IsValid, ufs_destroy-IsValid}
use iu_sp.Userfs.Safe.Resize.{ufs_resize-IsValid, resize_cost}

-- the calls of userfs.h, with any arguments
pub data Call : Type 0 where
  open_file : (name : Name) (flags : ℕ) → Call
  write_file : (fd : ℤ) (buf : List ℕ) → Call
  read_file : (fd : ℤ) (size : ℕ) → Call
  close_file : (fd : ℤ) → Call
  delete_file : (name : Name) → Call
  resize_file : (fd : ℤ) (size : ℕ) → Call
  destroy : Call

-- the state that a call leaves
unfoldable pub call : (List (Ptr × File) → Ptr) → Call → Ufs → Run Ufs
call malloc (open_file name flags) fs = ufs_open malloc name flags fs >>= λ r. ok r.1
call malloc (write_file fd buf) fs = ufs_write fd buf fs >>= λ r. ok r.1
call malloc (read_file fd size) fs = ufs_read fd size fs >>= λ r. ok r.2
call malloc (close_file fd) fs = ufs_close fd fs >>= λ r. ok r.1
call malloc (delete_file name) fs = ufs_delete name fs >>= λ r. ok r.1
call malloc (resize_file fd size) fs = ufs_resize fd size fs >>= λ r. ok r.1
call malloc destroy fs = ok (ufs_destroy fs)

unfoldable pub session : (List (Ptr × File) → Ptr) → List Call → Ufs → Run Ufs
session malloc [] fs = ok fs
session malloc (c ∷ cs) fs = call malloc c fs >>= session malloc cs

-- the blocks that a call adds to a chain at most
abbrev pub cost : Call → ℕ
cost (write_file fd buf) = write_cost (length buf)
cost (resize_file fd size) = resize_cost size
cost _ = 0

abbrev pub total_cost : List Call → ℕ
total_cost [] = 0
total_cost (c ∷ cs) = cost c + total_cost cs

module _ (malloc : List (Ptr × File) → Ptr) (fresh : IsFresh malloc) where
  pub call-IsValid :
      {n : ℕ} (c : Call) (fs : Ufs)
      → IsValid n fs
      → block_size * n ≤ 2 ^ 31
      → Returns (IsValid (n + cost c)) (call malloc c fs)
  unfolding call
  call-IsValid (open_file name flags) fs v small =
      Returns-bind (ufs_open-Returns malloc fs name flags fresh v)
        λ r p. returns (IsValid-weaken (omega arith) p.0)
  call-IsValid (write_file fd buf) fs v small =
      Returns-bind (ufs_write-IsValid fs fd buf v) λ r p. returns p
  call-IsValid (read_file fd size) fs v small =
      Returns-bind (ufs_read-IsValid fs fd size v small)
        λ r p. returns (IsValid-weaken (omega arith) p.0)
  call-IsValid (close_file fd) fs v small =
      Returns-bind (ufs_close-IsValid fs fd v) λ r p. returns (IsValid-weaken (omega arith) p)
  call-IsValid (delete_file name) fs v small =
      Returns-bind (ufs_delete-IsValid fs name v) λ r p. returns (IsValid-weaken (omega arith) p)
  call-IsValid (resize_file fd size) fs v small =
      Returns-bind (ufs_resize-IsValid fs fd size v) λ r p. returns p
  call-IsValid destroy fs v small = returns (IsValid-weaken (omega arith) (ufs_destroy-IsValid fs))

  session-IsValid :
      (cs : List Call) {n : ℕ} (fs : Ufs)
      → IsValid n fs
      → block_size * (n + total_cost cs) ≤ 2 ^ 31
      → Returns (IsValid (n + total_cost cs)) (session malloc cs fs)
  unfolding session
  session-IsValid [] fs v small = returns (IsValid-weaken (omega arith) v)
  session-IsValid (c ∷ cs) {n} fs v small =
      Returns-bind (call-IsValid c fs v (omega arith)) λ fs' w.
        Returns-map (session-IsValid cs fs' w (omega arith)) λ gs x. IsValid-weaken (omega arith) x

  -- Memory safety: from the static initialisers, any sequence of calls with any arguments ends
  -- without a fault, in a valid state, as long as `malloc` gives fresh addresses and
  -- the calls together make at most 2 GiB of blocks.
  pub session_safe :
      (cs : List Call)
      → block_size * total_cost cs ≤ 2 ^ 31
      → Returns (IsValid (total_cost cs)) (session malloc cs initial)
  session_safe cs small =
      Returns-map (session-IsValid cs initial initial-IsValid (omega arith))
        λ fs v. IsValid-weaken (omega arith) v
