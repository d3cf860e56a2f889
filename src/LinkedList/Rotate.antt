-- ===== src/LinkedList/Rotate.antt =====
-- A ring seen from any of its nodes: `list_add_tail`, and `list_del` of a node in the middle.
use mathlib.Core.List.{append_assoc}
use mathlib.Core.Path.{subst}
use quickjs_rs.Base.{ℕ, ◌≡◌, refl, sym, ap, ◌⊎◌, inl, inr, List, [], ◌∷◌, ◌++◌, All}
use quickjs_rs.LinkedList.{Nodes, list_insert, list_add, list_add_tail, list_del}
use quickjs_rs.LinkedList.Ring.{
  Chain, Fresh, Distinct, IsRing, flipped, list_add-IsRing, list_del-IsRing,
}

Chain-append :
    (h : Nodes) (a : ℕ) (xs : List ℕ) (e : ℕ) (ys : List ℕ) (b : ℕ)
    → Chain h a xs e
    → Chain h e ys b
    → Chain h a (xs ++ (e ∷ ys)) b
Chain-append h a [] e ys b c d = (c.0, c.1, d)
Chain-append h a (x ∷ xs) e ys b c d = (c.0, c.1, Chain-append h x xs e ys b c.2 d)

Chain-split :
    (h : Nodes) (a : ℕ) (xs : List ℕ) (e : ℕ) (ys : List ℕ) (b : ℕ)
    → Chain h a (xs ++ (e ∷ ys)) b
    → Chain h a xs e × Chain h e ys b
Chain-split h a [] e ys b c = ((c.0, c.1), c.2)
Chain-split h a (x ∷ xs) e ys b c =
    let rest = Chain-split h x xs e ys b c.2 in ((c.0, c.1, rest.0), rest.1)

-- No node of one list is in the other.
abbrev Apart : List ℕ → List ℕ → Type 0
Apart xs ys = All (λ x. Fresh x ys) xs

Fresh-append : (x : ℕ) (l k : List ℕ) → Fresh x l → Fresh x k → Fresh x (l ++ k)
Fresh-append x [] k f g = g
Fresh-append x (y ∷ l) k f g = (f.0, Fresh-append x l k f.1 g)

Fresh-split : (x : ℕ) (l k : List ℕ) → Fresh x (l ++ k) → Fresh x l × Fresh x k
Fresh-split x [] k f = (tt, f)
Fresh-split x (y ∷ l) k f = let rest = Fresh-split x l k f.1 in ((f.0, rest.0), rest.1)

Distinct-append : (l k : List ℕ) → Distinct l → Distinct k → Apart l k → Distinct (l ++ k)
Distinct-append [] k d e a = e
Distinct-append (x ∷ l) k d e a = (Fresh-append x l k d.0 a.0, Distinct-append l k d.1 e a.1)

Distinct-split : (l k : List ℕ) → Distinct (l ++ k) → Distinct l × Distinct k × Apart l k
Distinct-split [] k d = (tt, d, tt)
Distinct-split (x ∷ l) k d =
    let rest = Distinct-split l k d.1 in
    let fresh = Fresh-split x l k d.0 in ((fresh.0, rest.0), rest.1, (fresh.1, rest.2))

Apart-none : (k : List ℕ) → Apart k []
Apart-none [] = tt
Apart-none (y ∷ k) = (tt, Apart-none k)

Apart-cons : (x : ℕ) (k l : List ℕ) → Fresh x k → Apart k l → Apart k (x ∷ l)
Apart-cons x [] l f a = tt
Apart-cons x (y ∷ k) l f a = ((flipped x y f.0, a.0), Apart-cons x k l f.1 a.1)

Apart-sym : (l k : List ℕ) → Apart l k → Apart k l
Apart-sym [] k a = Apart-none k
Apart-sym (x ∷ l) k a = Apart-cons x k l a.0 (Apart-sym l k a.1)

Distinct-swap : (l k : List ℕ) → Distinct (l ++ k) → Distinct (k ++ l)
Distinct-swap l k d =
    let parts = Distinct-split l k d in Distinct-append k l parts.1 parts.0 (Apart-sym l k parts.2)

-- The ring from another node.
rotated :
    (h : Nodes) (head : ℕ) (xs : List ℕ) (e : ℕ) (ys : List ℕ)
    → IsRing h head (xs ++ (e ∷ ys))
    → IsRing h e (ys ++ (head ∷ xs))
rotated h head xs e ys r =
    let parts = Chain-split h head xs e ys head r.0 in
    (Chain-append h e ys head xs e parts.1 parts.0, Distinct-swap (head ∷ xs) (e ∷ ys) r.1)

-- A list by its last node.
last_of : (xs : List ℕ) → (xs ≡ []) ⊎ ((front : List ℕ) × (p : ℕ) × (xs ≡ front ++ (p ∷ [])))
last_of [] = inl refl
last_of (x ∷ xs) = elim (last_of xs) [
  | inl e ↦ inr ([], x, ap (λ l. x ∷ l) e)
  | inr (front, p, e) ↦ inr (x ∷ front, p, ap (λ l. x ∷ l) e)
]

add_last :
    (h : Nodes) (el head : ℕ) (front : List ℕ) (p : ℕ)
    → IsRing h head (front ++ (p ∷ []))
    → Fresh el (head ∷ (front ++ (p ∷ [])))
    → IsRing (list_add_tail h el head) head ((front ++ (p ∷ [])) ++ (el ∷ []))
unfolding list_add_tail
add_last h el head front p r f =
    let at_p : IsRing h p (head ∷ front) = rotated h head front p [] r in
    let fresh = Fresh-split el front (p ∷ []) f.1 in
    let added : IsRing (list_add h el p) p (el ∷ head ∷ front) =
      list_add-IsRing h el p (head ∷ front) at_p (fresh.1.0, (f.0, fresh.0)) in
    let inserted : IsRing (list_insert h el p head) p (el ∷ head ∷ front) =
      (unfold list_add in
        subst (λ n. IsRing (list_insert h el p n) p (el ∷ head ∷ front)) at_p.0.0 added) in
    subst (λ q. IsRing (list_insert h el q head) head ((front ++ (p ∷ [])) ++ (el ∷ [])))
      (sym at_p.0.1)
      (subst (IsRing (list_insert h el p head) head) (sym (append_assoc front (p ∷ []) (el ∷ [])))
        (rotated (list_insert h el p head) p (el ∷ []) head front inserted))

add_only :
    (h : Nodes) (el head : ℕ)
    → IsRing h head []
    → Fresh el (head ∷ [])
    → IsRing (list_add_tail h el head) head (el ∷ [])
unfolding list_add_tail
add_only h el head r f =
    let added : IsRing (list_add h el head) head (el ∷ []) = list_add-IsRing h el head [] r f in
    let inserted : IsRing (list_insert h el head head) head (el ∷ []) =
      (unfold list_add in
        subst (λ n. IsRing (list_insert h el head n) head (el ∷ [])) r.0.0 added) in
    subst (λ q. IsRing (list_insert h el q head) head (el ∷ [])) (sym r.0.1) inserted

-- `list_add_tail` of a node that is not in the ring puts it behind the others.
pub list_add_tail-IsRing :
    (h : Nodes) (el head : ℕ) (els : List ℕ)
    → IsRing h head els
    → Fresh el (head ∷ els)
    → IsRing (list_add_tail h el head) head (els ++ (el ∷ []))
list_add_tail-IsRing h el head els r f = elim (last_of els) [
  | inl e ↦
      subst (λ l. IsRing (list_add_tail h el head) head (l ++ (el ∷ []))) (sym e)
        (add_only h el head (subst (IsRing h head) e r) (subst (λ l. Fresh el (head ∷ l)) e f))
  | inr (front, p, e) ↦
      subst (λ l. IsRing (list_add_tail h el head) head (l ++ (el ∷ []))) (sym e)
        (add_last h el head front p (subst (IsRing h head) e r)
          (subst (λ l. Fresh el (head ∷ l)) e f))
]

del_behind :
    (h : Nodes) (el head : ℕ) (front : List ℕ) (p : ℕ) (ys : List ℕ)
    → IsRing h head ((front ++ (p ∷ [])) ++ (el ∷ ys))
    → IsRing (list_del h el) head ((front ++ (p ∷ [])) ++ ys)
del_behind h el head front p ys r =
    let at_p : IsRing h p (el ∷ (ys ++ (head ∷ front))) =
      rotated h head front p (el ∷ ys)
        (subst (IsRing h head) (append_assoc front (p ∷ []) (el ∷ ys)) r) in
    subst (IsRing (list_del h el) head) (sym (append_assoc front (p ∷ []) ys))
      (rotated (list_del h el) p ys head front (list_del-IsRing h el p (ys ++ (head ∷ front)) at_p))

-- `list_del` of any node of a ring leaves the ring of the others, in their order.
pub list_del_any-IsRing :
    (h : Nodes) (el head : ℕ) (xs ys : List ℕ)
    → IsRing h head (xs ++ (el ∷ ys))
    → IsRing (list_del h el) head (xs ++ ys)
list_del_any-IsRing h el head xs ys r = elim (last_of xs) [
  | inl e ↦
      subst (λ l. IsRing (list_del h el) head (l ++ ys)) (sym e)
        (list_del-IsRing h el head ys (subst (λ l. IsRing h head (l ++ (el ∷ ys))) e r))
  | inr (front, p, e) ↦
      subst (λ l. IsRing (list_del h el) head (l ++ ys)) (sym e)
        (del_behind h el head front p ys (subst (λ l. IsRing h head (l ++ (el ∷ ys))) e r))
]
