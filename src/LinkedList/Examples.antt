-- ===== src/LinkedList/Examples.antt =====
-- A ring with head 1, empty and with the node 2, and the theorems at it.
use quickjs_rs.Base.{ℕ, ◌≡◌, refl, arith, ◌==◌, List, [], ◌∷◌, true, length}
use quickjs_rs.LinkedList.{
  Nodes, init_list_head, list_add, list_add_tail, list_del, list_empty, list_for_each, list_insert,
  list_unlink, set_next, set_prev, update,
}
use quickjs_rs.LinkedList.Ring.{IsRing, list_add-IsRing, list_for_each-IsRing}
use quickjs_rs.LinkedList.Rotate.{list_add_tail-IsRing, list_del_any-IsRing}

abbrev blank : Nodes
blank = record { prev = λ x. 0; next = λ x. 0 }

abbrev empty : Nodes
empty = init_list_head blank 1

empty-IsRing : IsRing empty 1 []
unfolding init_list_head
empty-IsRing = ((refl, refl), (tt, tt))

abbrev two : List ℕ
two = 2 ∷ []

one-IsRing : IsRing (list_add empty 2 1) 1 (2 ∷ [])
one-IsRing = list_add-IsRing empty 2 1 [] empty-IsRing ((λ e. omega (arith, e)), tt)

-- 2 at the head, 3 at the end; 2 is taken out again.
walk :
    (list_for_each 9 (list_add_tail (list_add empty 2 1) 3 1) 1 2 ≡ (2 ∷ 3 ∷ [], true))
    × (list_for_each 9 (list_del (list_add_tail (list_add empty 2 1) 3 1) 2) 1 3 ≡ (3 ∷ [], true))
unfolding list_for_each list_add_tail list_add init_list_head list_insert list_del list_unlink
    set_next set_prev update
walk = (refl, refl)

list_add-IsRing_example : IsRing (list_add empty 2 1) 1 (2 ∷ [])
list_add-IsRing_example = list_add-IsRing empty 2 1 [] empty-IsRing ((λ e. omega (arith, e)), tt)

two_three-IsRing : IsRing (list_add_tail (list_add empty 2 1) 3 1) 1 (2 ∷ 3 ∷ [])
two_three-IsRing =
    list_add_tail-IsRing (list_add empty 2 1) 3 1 (2 ∷ []) one-IsRing
      ((λ e. omega (arith, e)), ((λ e. omega (arith, e)), tt))

list_add_tail-IsRing_example : IsRing (list_add_tail (list_add empty 2 1) 3 1) 1 (2 ∷ 3 ∷ [])
list_add_tail-IsRing_example =
    list_add_tail-IsRing (list_add empty 2 1) 3 1 (2 ∷ []) one-IsRing
      ((λ e. omega (arith, e)), ((λ e. omega (arith, e)), tt))

list_del_any-IsRing_example :
    IsRing (list_del (list_add_tail (list_add empty 2 1) 3 1) 3) 1 (2 ∷ [])
list_del_any-IsRing_example =
    list_del_any-IsRing (list_add_tail (list_add empty 2 1) 3 1) 3 1 (2 ∷ []) [] two_three-IsRing

list_for_each-IsRing_example :
    (list_for_each (length two) (list_add empty 2 1) 1 ((list_add empty 2 1).next 1)
      ≡ (2 ∷ [], true))
    × (list_empty (list_add empty 2 1) 1 ≡ (length two == 0))
list_for_each-IsRing_example = list_for_each-IsRing (list_add empty 2 1) 1 two one-IsRing
