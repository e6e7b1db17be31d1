-- ===== src/Coro/Links/Examples.antt =====
-- Changes of the linked list, and what the theorem gives of them.
use iu_sp.Base.{ℕ, ◌≡◌, refl, none, some, List, [], ◌∷◌, ok, ◌>>=◌, Returns, inl, inr}
use iu_sp.Coro.{coro_list_add, coro_list_delete, new_coro, yield_target}
use iu_sp.Coro.Links.{
  Links, LinkedList, Change, change_links, link_struct, unlink_struct, set_next, set_prev,
}
use iu_sp.Coro.Links.Refine.{Holds, IsPresent}
use iu_sp.Coro.Links.Changes.{change_list, change_links-Holds}

abbrev nothing : LinkedList
nothing = record { coro_list = none; structs = λ p. none }

-- what malloc leaves in a struct
abbrev garbage : Links
garbage = record { next = some 77; prev = some 78 }

-- three coroutines, of which the second goes
abbrev changes : List Change
changes =
    Change.added 1 garbage
    ∷ Change.added 2 garbage
    ∷ Change.added 3 garbage
    ∷ Change.removed 2
    ∷ Change.freed 2
    ∷ []

around_the_gap :
    (change_links changes nothing >>= λ r. ok (r.structs 3))
    ≡ ok (some (record { next = some 1; prev = none }))
unfolding change_links link_struct unlink_struct set_next set_prev
around_the_gap = refl

change_links-Holds_example :
    Returns
      (λ r.
        Holds r (change_list changes [])
        × ((p : ℕ)
            → IsPresent p (change_list changes [])
            → (n : Links) × (r.structs p ≡ some n)
              × (n.next ≡ yield_target p (change_list changes []))))
      (change_links changes nothing)
unfolding coro_list_add coro_list_delete new_coro
change_links-Holds_example =
    change_links-Holds changes nothing [] (record { head = refl; linked = tt }) tt
      (tt, ((refl, tt), ((refl, (refl, tt)), (inr (inl refl), ((refl, (refl, tt)), tt)))))
