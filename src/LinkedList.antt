-- ===== src/LinkedList.antt =====
-- The circular doubly linked lists of libquickjs-sys/embed/quickjs/list.h. A pointer is a number, 0
-- for NULL, and the two fields of the nodes are functions of it.
pub mod Ring
pub mod Rotate
pub mod Examples
use quickjs_rs.Base.{ℕ, zero, suc, ◌==◌, if◌then◌else◌, List, [], ◌∷◌, Bool, true, false}

pub record Nodes : Type 0 where
  pub prev : ℕ → ℕ
  pub next : ℕ → ℕ

-- A field of one node is written.
unfoldable pub update : (ℕ → ℕ) → ℕ → ℕ → ℕ → ℕ
update field at v x = if x == at then v else field x

unfoldable pub set_next : ℕ → ℕ → Nodes → Nodes
unfolding update
set_next at v h = record h { next = update h.next at v }

unfoldable pub set_prev : ℕ → ℕ → Nodes → Nodes
unfolding update
set_prev at v h = record h { prev = update h.prev at v }

unfoldable pub init_list_head : Nodes → ℕ → Nodes
unfolding set_next set_prev
init_list_head h head = set_next head head (set_prev head head h)

-- `__list_add`, the four writes in order.
unfoldable pub list_insert : Nodes → ℕ → ℕ → ℕ → Nodes
unfolding set_next set_prev
list_insert h el prev next =
    set_prev next el (set_next el next (set_prev el prev (set_next prev el h)))

unfoldable pub list_add : Nodes → ℕ → ℕ → Nodes
unfolding list_insert
list_add h el head = list_insert h el head (h.next head)

unfoldable pub list_add_tail : Nodes → ℕ → ℕ → Nodes
unfolding list_insert
list_add_tail h el head = list_insert h el (h.prev head) head

-- The writes of `list_del`, with its two locals.
unfoldable pub list_unlink : Nodes → ℕ → ℕ → ℕ → Nodes
unfolding set_next set_prev
list_unlink h el prev next =
    set_next el 0 (set_prev el 0 (set_prev next prev (set_next prev next h)))

unfoldable pub list_del : Nodes → ℕ → Nodes
unfolding list_unlink
list_del h el = list_unlink h el (h.prev el) (h.next el)

unfoldable pub list_empty : Nodes → ℕ → Bool
list_empty h el = h.next el == el

-- The nodes that `list_for_each` visits from `el` on, with fuel for its rounds, and whether it ended.
unfoldable pub list_for_each : ℕ → Nodes → ℕ → ℕ → List ℕ × Bool
list_for_each zero h head el = ([], el == head)
list_for_each (suc left) h head el =
    let (els, ended) = list_for_each left h head (h.next el) in
    if el == head then ([], true) else (el ∷ els, ended)
