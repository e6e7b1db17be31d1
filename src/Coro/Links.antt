-- ===== src/Coro/Links.antt =====
-- The links of homework-01/libcoro.c: `next` and `prev` of every struct coro, and `coro_list`.
pub mod Segments
pub mod Refine
pub mod Changes
mod Examples
use iu_sp.Base.{ℕ, Option, none, some, List, [], ◌∷◌, ◌==◌, if◌then◌else◌, Run, ok, or_fault, ◌>>=◌}

pub record Links : Type 0 where
  pub next : Option ℕ
  pub prev : Option ℕ

-- the structs by their addresses; `none` is no struct
abbrev pub Store : Type 0
Store = ℕ → Option Links

pub record LinkedList : Type 0 where
  pub coro_list : Option ℕ
  pub structs : Store

abbrev pub put_struct : ℕ → Links → Store → Store
put_struct p l st q = if q == p then some l else st q

-- `p->next = v`, a fault without a struct
unfoldable pub set_next : ℕ → Option ℕ → Store → Run Store
set_next p v st = or_fault (st p) >>= λ l. ok (put_struct p (record l { next = v }) st)

-- `p->prev = v`
unfoldable pub set_prev : ℕ → Option ℕ → Store → Run Store
set_prev p v st = or_fault (st p) >>= λ l. ok (put_struct p (record l { prev = v }) st)

-- `if (p != NULL) p->next = v`, and the same for prev
abbrev pub set_next_of : Option ℕ → Option ℕ → Store → Run Store
set_next_of none v st = ok st
set_next_of (some p) v st = set_next p v st

abbrev pub set_prev_of : Option ℕ → Option ℕ → Store → Run Store
set_prev_of none v st = ok st
set_prev_of (some p) v st = set_prev p v st

-- coro_list_add
unfoldable pub link_struct : ℕ → LinkedList → Run LinkedList
link_struct c l = set_next c l.coro_list l.structs >>= λ st. set_prev c none st >>= λ st'.
    set_prev_of l.coro_list (some c) st' >>= λ st''.
    ok (record { coro_list = some c; structs = st'' })

-- `if (prev == NULL) coro_list = next;`
abbrev pub head_after : Links → Option ℕ → Option ℕ
head_after c head = elim c.prev [ none ↦ c.next | some p ↦ head ]

-- coro_list_delete
unfoldable pub unlink_struct : ℕ → LinkedList → Run LinkedList
unlink_struct p l = or_fault (l.structs p) >>= λ c. set_next_of c.prev c.next l.structs >>= λ st.
    set_prev_of c.next c.prev st >>= λ st'.
    ok (record { coro_list = head_after c l.coro_list; structs = st' })

-- `free(c)` of coro_delete
abbrev pub free_struct : ℕ → Store → Store
free_struct p st q = if q == p then none else st q

-- What happens to the list: coro_new adds the struct that malloc gave, whose bytes are `old`,
-- coro_sched_wait takes one out, and coro_delete frees one that is out.
pub data Change : Type 0 where
  added : (p : ℕ) (old : Links) → Change
  removed freed : (p : ℕ) → Change

unfoldable pub change_links : List Change → LinkedList → Run LinkedList
change_links [] l = ok l
change_links (added p old ∷ ks) l =
    link_struct p (record l { structs = put_struct p old l.structs }) >>= λ r. change_links ks r
change_links (removed p ∷ ks) l = unlink_struct p l >>= λ r. change_links ks r
change_links (freed p ∷ ks) l = change_links ks (record l { structs = free_struct p l.structs })
