-- ===== src/Userfs/Invariant.antt =====
-- The invariant of the file system, and how the files and the descriptors depend on one another.
use iu_sp.Base.{
  total, total-eq-zero, ℕ, ◌*◌, ◌≤◌, ◌<◌, ◌≡◌, refl, true, Option, none, some, List, arith, length,
  get_elem?, All,
}
use iu_sp.Userfs.Block.{Block, block_size}
use iu_sp.Userfs.State.{Ptr, File, FileDesc, Ufs, find_file, initial}
use iu_sp.Userfs.Files.{Distinct, Named}
use iu_sp.Userfs.Table.{Table, is_open, leads_to}

-- memory of the full size, no more of it occupied
pub record IsBlock (b : Block) : Type 0 where
  pub sized : length b.memory ≡ block_size
  pub within : b.occupied ≤ block_size

-- the bytes for which a file has blocks
abbrev pub reach : File → ℕ
reach f = block_size * length f.blocks

-- blocks enough for the size, and at most `n` of them
pub record IsFile (n : ℕ) (f : File) : Type 0 where
  pub sound : All IsBlock f.blocks
  pub covered : f.size ≤ reach f
  pub short : length f.blocks ≤ n

-- the descriptor leads to a live file and stands inside its blocks
pub record Opens (fs : List (Ptr × File)) (d : FileDesc) : Type 0 where
  pub target : File
  pub live : find_file fs d.file ≡ some target
  pub inside : d.offset ≤ reach target

-- Files and descriptors together. No descriptor dangles, each file knows how many lead to it, a
-- ghost has one at least, and names are unique among the other files. No chain is longer than `n`.
pub record Linked (n : ℕ) (fs : List (Ptr × File)) (ds : Table) : Type 0 where
  pub distinct : Distinct fs
  pub files : (p : Ptr) (f : File) → find_file fs p ≡ some f → IsFile n f
  pub counted : (p : Ptr) (f : File) → find_file fs p ≡ some f → f.refs ≡ total (leads_to p) ds
  pub haunted : (p : Ptr) (f : File) → find_file fs p ≡ some f → f.is_ghost ≡ true → 0 < f.refs
  pub opened : (i : ℕ) (d : FileDesc) → get_elem? ds i ≡ some (some d) → Opens fs d
  pub unique : (p q : Ptr) (f g : File) → Named fs f.name p f → Named fs f.name q g → p ≡ q

-- The invariant: also, `used` counts the open descriptors, and `capacity` all.
pub record IsValid (n : ℕ) (fs : Ufs) : Type 0 where
  pub linked : Linked n fs.file_list fs.file_descriptors
  pub used : fs.used ≡ total is_open fs.file_descriptors
  pub capacity : fs.capacity ≡ length fs.file_descriptors

-- The static initialisers satisfy it.
pub initial-IsValid : IsValid 0 initial
unfolding find_file total
initial-IsValid = record {
  linked = record {
    distinct = tt;
    files = λ p f e. absurd (ground arith);
    counted = λ p f e. absurd (ground arith);
    haunted = λ p f e. absurd (ground arith);
    opened = λ i d e. absurd (ground arith);
    unique = λ p q f g m n. absurd (ground arith);
  };
  used = refl;
  capacity = refl;
}

-- an address on which no file lives has no descriptor
pub no_leads :
    {n : ℕ} {fs : List (Ptr × File)} {ds : Table} (p : Ptr)
    → Linked n fs ds
    → find_file fs p ≡ none
    → total (leads_to p) ds ≡ 0
no_leads {ds} p l e = total-eq-zero (leads_to p) ds λ i u h. zero_at i u h
  where
    zero_at : (i : ℕ) (u : Option FileDesc) → get_elem? ds i ≡ some u → leads_to p u ≡ 0
    zero_at i none h = refl
    zero_at i (some d) h = let o = l.opened i d h in ground (arith, o.live)

-- A bound on the chains may be raised.
pub Linked-weaken :
    {m n : ℕ} {fs : List (Ptr × File)} {ds : Table} → m ≤ n → Linked m fs ds → Linked n fs ds
Linked-weaken le l = record {
  distinct = l.distinct;
  files = λ p f e.
      let s = l.files p f e in
      record { sound = s.sound; covered = s.covered; short = omega (arith, s.short) };
  counted = l.counted;
  haunted = l.haunted;
  opened = l.opened;
  unique = l.unique;
}

pub IsValid-weaken : {m n : ℕ} {fs : Ufs} → m ≤ n → IsValid m fs → IsValid n fs
IsValid-weaken le v = record {
  linked = Linked-weaken le v.linked;
  used = v.used;
  capacity = v.capacity;
}
