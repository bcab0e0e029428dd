-- ===== src/Dsa/ListHead.antt =====
-- `struct list_head` and `struct single_list_head` of kernel/src/dsa/list.c. A function that
-- writes through `head` returns the new head. A node that is passed in is not NULL.
pub mod Laws
pub mod Remove
use goofyos.Base.{ℕ, Option, none, some, ◌==◌, if◌then◌else◌}
use goofyos.Dsa.Links.{Links, null, set_next, set_prev, update}

-- `none` is the read through a NULL head.
unfoldable pub list_pop_front : Links → ℕ → Option (ℕ × ℕ)
list_pop_front l head = if head == null then none else some (head, l.next head)

-- The new head and the new links.
unfoldable pub list_push_front : Links → ℕ → ℕ → ℕ × Links
list_push_front l head needle =
    let l' : Links = if head == null then l else set_prev l head needle in
    (needle, set_next l' needle head)

unfoldable pub list_remove_node : Links → ℕ → ℕ → ℕ × Links
list_remove_node l head needle =
    let head' : ℕ = if head == needle then l.next head else head in
    let l₁ : Links =
      if l.next needle == null then l else set_prev l (l.next needle) (l.prev needle) in
    let l₂ : Links =
      if l₁.prev needle == null then l₁ else set_next l₁ (l₁.prev needle) (l₁.next needle) in
    (head', set_prev (set_next l₂ needle null) needle null)

-- Singly linked nodes have the `next` pointer alone.
unfoldable pub slist_pop_front : (ℕ → ℕ) → ℕ → Option (ℕ × ℕ)
slist_pop_front next head = if head == null then none else some (head, next head)

unfoldable pub slist_push_front : (ℕ → ℕ) → ℕ → ℕ → ℕ × (ℕ → ℕ)
slist_push_front next head needle = (needle, update next needle head)
