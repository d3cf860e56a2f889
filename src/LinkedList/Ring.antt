-- ===== src/LinkedList/Ring.antt =====
-- The list that the nodes around a head stand for, and what the operations do to it.
use quickjs_rs.Base.{
  ℕ, ◌≡◌, ◌≢◌, arith, ◌==◌, List, [], ◌∷◌, true, false, length, sym, ◌∙◌, ap, All,
}
use mathlib.Core.Path.{subst}
use quickjs_rs.LinkedList.{
  Nodes, update, set_next, set_prev, list_insert, list_add, list_unlink, list_del, list_empty,
  list_for_each,
}

-- From `a` over the nodes of a list to `b`, with both pointers at each step.
abbrev pub Chain : Nodes → ℕ → List ℕ → ℕ → Type 0
Chain h a [] b = (h.next a ≡ b) × (h.prev b ≡ a)
Chain h a (e ∷ els) b = (h.next a ≡ e) × (h.prev e ≡ a) × Chain h e els b

abbrev pub Fresh : ℕ → List ℕ → Type 0
Fresh x l = All (λ y. x ≢ y) l

abbrev pub Distinct : List ℕ → Type 0
Distinct [] = Unit
Distinct (x ∷ l) = Fresh x l × Distinct l

-- The list at `head`: a ring of nodes, no two of them the same.
abbrev pub IsRing : Nodes → ℕ → List ℕ → Type 0
IsRing h head els = Chain h head els head × Distinct (head ∷ els)

update-other : (f : ℕ → ℕ) (at v x : ℕ) → at ≢ x → update f at v x ≡ f x
unfolding update
update-other f at v x other = ground arith

update-same : (f : ℕ → ℕ) (at v : ℕ) → update f at v at ≡ v
unfolding update
update-same f at v = ground arith

-- Pointers that are written elsewhere leave a chain.
Chain-frame :
    (h h' : Nodes) (a : ℕ) (els : List ℕ) (b : ℕ)
    → h'.next a ≡ h.next a
    → All (λ x. h'.next x ≡ h.next x) els
    → All (λ x. h'.prev x ≡ h.prev x) els
    → h'.prev b ≡ h.prev b
    → Chain h a els b
    → Chain h' a els b
Chain-frame h h' a [] b na ns ps pb c = (na ∙ c.0, pb ∙ c.1)
Chain-frame h h' a (e ∷ els) b na ns ps pb c =
    (na ∙ c.0, ps.0 ∙ c.1, Chain-frame h h' e els b ns.0 ns.1 ps.1 pb c.2)

All-map : (P Q : ℕ → Type 0) (l : List ℕ) → ((x : ℕ) → P x → Q x) → All P l → All Q l
All-map P Q [] f a = tt
All-map P Q (x ∷ l) f a = (f x a.0, All-map P Q l f a.1)

All-both : (P Q : ℕ → Type 0) (l : List ℕ) → All P l → All Q l → All (λ x. P x × Q x) l
All-both P Q [] a b = tt
All-both P Q (x ∷ l) a b = ((a.0, b.0), All-both P Q l a.1 b.1)

module _ (h : Nodes) (el p n : ℕ) where
  insert-next_other : (x : ℕ) → p ≢ x → el ≢ x → (list_insert h el p n).next x ≡ h.next x
  unfolding list_insert set_next set_prev
  insert-next_other x px ex =
      update-other (update h.next p el) el n x ex ∙ update-other h.next p el x px

  insert-prev_other : (x : ℕ) → n ≢ x → el ≢ x → (list_insert h el p n).prev x ≡ h.prev x
  unfolding list_insert set_next set_prev
  insert-prev_other x nx ex =
      update-other (update h.prev el p) n el x nx ∙ update-other h.prev el p x ex

  insert-links :
      el ≢ p
      → n ≢ el
      → ((list_insert h el p n).next p ≡ el)
        × ((list_insert h el p n).prev el ≡ p)
        × ((list_insert h el p n).next el ≡ n)
        × ((list_insert h el p n).prev n ≡ el)
  unfolding list_insert set_next set_prev
  insert-links ep ne = (
    update-other (update h.next p el) el n p ep ∙ update-same h.next p el,
    update-other (update h.prev el p) n el el ne ∙ update-same h.prev el p,
    update-same (update h.next p el) el n,
    update-same (update h.prev el p) n el,
  )

pub flipped : (x y : ℕ) → x ≢ y → y ≢ x
flipped x y d e = d (sym e)

-- The node behind the head.
abbrev first : List ℕ → ℕ → ℕ
first [] b = b
first (e ∷ els) b = e

next-first : (h : Nodes) (a : ℕ) (els : List ℕ) (b : ℕ) → Chain h a els b → h.next a ≡ first els b
next-first h a [] b c = c.0
next-first h a (e ∷ els) b c = c.0

insert-IsRing :
    (h : Nodes) (el head : ℕ) (els : List ℕ)
    → IsRing h head els
    → Fresh el (head ∷ els)
    → IsRing (list_insert h el head (first els head)) head (el ∷ els)
insert-IsRing h el head [] (c, d) f =
    let l = insert-links h el head head f.0 (flipped el head f.0) in
    ((l.0, l.1, (l.2, l.3)), ((flipped el head f.0, tt), (tt, tt)))
insert-IsRing h el head (e ∷ els) (c, d) f =
    let l = insert-links h el head e f.0 (flipped el e f.1.0) in
    let chain : Chain (list_insert h el head e) e els head =
      Chain-frame h (list_insert h el head e) e els head
        (insert-next_other h el head e e d.0.0 f.1.0)
        (All-map _ _ els (λ x b. insert-next_other h el head e x b.0 b.1)
          (All-both _ _ els d.0.1 f.1.1))
        (All-map _ _ els (λ x b. insert-prev_other h el head e x b.0 b.1)
          (All-both _ _ els d.1.0 f.1.1))
        (insert-prev_other h el head e head (flipped head e d.0.0) f.0) c.2 in
    ((l.0, l.1, (l.2, l.3, chain)), ((flipped el head f.0, d.0), (f.1, d.1)))

-- `list_add` of a node that is not in the ring puts it in front of the others.
pub list_add-IsRing :
    (h : Nodes) (el head : ℕ) (els : List ℕ)
    → IsRing h head els
    → Fresh el (head ∷ els)
    → IsRing (list_add h el head) head (el ∷ els)
unfolding list_add
list_add-IsRing h el head els r f =
    subst (λ n. IsRing (list_insert h el head n) head (el ∷ els))
      (sym (next-first h head els head r.0)) (insert-IsRing h el head els r f)

module _ (h : Nodes) (el p n : ℕ) where
  unlink-next_other : (x : ℕ) → p ≢ x → el ≢ x → (list_unlink h el p n).next x ≡ h.next x
  unfolding list_unlink set_next set_prev
  unlink-next_other x px ex =
      update-other (update h.next p n) el 0 x ex ∙ update-other h.next p n x px

  unlink-prev_other : (x : ℕ) → n ≢ x → el ≢ x → (list_unlink h el p n).prev x ≡ h.prev x
  unfolding list_unlink set_next set_prev
  unlink-prev_other x nx ex =
      update-other (update h.prev n p) el 0 x ex ∙ update-other h.prev n p x nx

  unlink-links :
      el ≢ p → el ≢ n → ((list_unlink h el p n).next p ≡ n) × ((list_unlink h el p n).prev n ≡ p)
  unfolding list_unlink set_next set_prev
  unlink-links ep en = (
    update-other (update h.next p n) el 0 p ep ∙ update-same h.next p n,
    update-other (update h.prev n p) el 0 n en ∙ update-same h.prev n p,
  )

unlink-IsRing :
    (h : Nodes) (el head : ℕ) (els : List ℕ)
    → IsRing h head (el ∷ els)
    → IsRing (list_unlink h el head (first els head)) head els
unlink-IsRing h el head [] (c, d) =
    let away : el ≢ head = flipped head el d.0.0 in
    (unlink-links h el head head away away, (tt, tt))
unlink-IsRing h el head (e ∷ els) (c, d) =
    let l = unlink-links h el head e (flipped head el d.0.0) d.1.0.0 in
    let chain : Chain (list_unlink h el head e) e els head =
      Chain-frame h (list_unlink h el head e) e els head
        (unlink-next_other h el head e e d.0.1.0 d.1.0.0)
        (All-map _ _ els (λ x b. unlink-next_other h el head e x b.0 b.1)
          (All-both _ _ els d.0.1.1 d.1.0.1))
        (All-map _ _ els (λ x b. unlink-prev_other h el head e x b.0 b.1)
          (All-both _ _ els d.1.1.0 d.1.0.1))
        (unlink-prev_other h el head e head (flipped head e d.0.1.0) (flipped head el d.0.0))
        c.2.2 in
    ((l.0, l.1, chain), (d.0.1, d.1.1))

-- `list_del` of the first node of a ring leaves the ring of the others.
pub list_del-IsRing :
    (h : Nodes) (el head : ℕ) (els : List ℕ)
    → IsRing h head (el ∷ els)
    → IsRing (list_del h el) head els
unfolding list_del
list_del-IsRing h el head els r =
    subst (λ n. IsRing (list_unlink h el (h.prev el) n) head els)
      (sym (next-first h el els head r.0.2))
      (subst (λ p. IsRing (list_unlink h el p (first els head)) head els) (sym r.0.1)
        (unlink-IsRing h el head els r))

visits :
    (h : Nodes) (head a : ℕ) (els : List ℕ)
    → Chain h a els head
    → Fresh head els
    → list_for_each (length els) h head (h.next a) ≡ (els, true)
unfolding list_for_each
visits h head a [] c f =
    let back : (h.next a == head) ≡ true = (let at_head : h.next a ≡ head = c.0 in ground arith) in
    ap (λ b. ([], b)) back
visits h head a (e ∷ els) c f = rw (c.0) (
    let more : (e == head) ≡ false = (let apart : head ≢ e = f.0 in ground arith) in
    rw (more, list_for_each) (ap (λ r. (e ∷ r.0, r.1)) (visits h head e els c.2 f.1)))

-- `list_for_each` visits the nodes of a ring in order and ends at the head; and `list_empty` says
-- whether there are none.
pub list_for_each-IsRing :
    (h : Nodes) (head : ℕ) (els : List ℕ)
    → IsRing h head els
    → (list_for_each (length els) h head (h.next head) ≡ (els, true))
      × (list_empty h head ≡ (length els == 0))
unfolding list_empty
list_for_each-IsRing h head els r = (visits h head head els r.0 r.1.0, empty els r)
  where
    empty : (els : List ℕ) → IsRing h head els → (h.next head == head) ≡ (length els == 0)
    empty [] r = let at_head : h.next head ≡ head = r.0.0 in ground arith
    empty (e ∷ els) r =
        let at_first : h.next head ≡ e = r.0.0 in let apart : head ≢ e = r.1.0.0 in ground arith
