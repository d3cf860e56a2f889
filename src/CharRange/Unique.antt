-- ===== src/CharRange/Unique.antt =====
-- A set of codes has one list of strictly increasing points.
use quickjs_rs.Base.{ℕ, ◌+◌, ◌≤◌, ◌≡◌, refl, arith, leb, dec_lt}
use quickjs_rs.Base.{List, [], ◌∷◌, Bool, true, xor, ◌∙◌, sym, ap, ap₂}
use quickjs_rs.CharRange.Meaning.{
  odd_below, Ascending-weaken, odd_below_above, Strict, Strict-Ascending, contains,
  contains-eq-odd_below, IsEven,
}

-- At its first point a strict list is inside, and below it outside.
at_first : (lo p : ℕ) (ps : List ℕ) → Strict lo (p ∷ ps) → odd_below (p ∷ ps) p ≡ true
at_first lo p ps s =
    let rest = odd_below_above (p + 1) ps p (Strict-Ascending (p + 1) ps s.1) (omega arith) in
    ground arith

first_eq :
    (lo p q : ℕ) (ps qs : List ℕ)
    → Strict lo (p ∷ ps)
    → Strict lo (q ∷ qs)
    → ((c : ℕ) → odd_below (p ∷ ps) c ≡ odd_below (q ∷ qs) c)
    → p ≤ q
first_eq lo p q ps qs s t same = elim (dec_lt q p) [
  | yes h ↦ absurd (
      let no : ⊥ = cc (
        same q,
        at_first lo q qs t,
        odd_below_above p (p ∷ ps) q
            (
              omega arith,
              Ascending-weaken (p + 1) p ps (omega arith) (Strict-Ascending (p + 1) ps s.1),
            )
            h,
      ) in
      no)
  | no h ↦ omega arith
]

cancel : (x y z : Bool) → xor x y ≡ xor x z → y ≡ z
cancel x y z e = ground arith

pub odd_below_unique :
    (lo : ℕ) (ps qs : List ℕ)
    → Strict lo ps
    → Strict lo qs
    → ((c : ℕ) → odd_below ps c ≡ odd_below qs c)
    → ps ≡ qs
odd_below_unique lo [] [] s t same = refl
odd_below_unique lo [] (q ∷ qs) s t same =
    absurd (let no : ⊥ = cc (same q, at_first lo q qs t) in no)
odd_below_unique lo (p ∷ ps) [] s t same =
    absurd (let no : ⊥ = cc (same p, at_first lo p ps s) in no)
odd_below_unique lo (p ∷ ps) (q ∷ qs) s t same =
    let le = first_eq lo p q ps qs s t same in
    let ge = first_eq lo q p qs ps t s (λ c. sym (same c)) in
    let e : p ≡ q = omega arith in
    ap₂ ◌∷◌ e (
      odd_below_unique (p + 1) ps qs s.1 (rw e t.1) (λ c.
        cancel (leb p c) (odd_below ps c) (odd_below qs c)
          (same c ∙ ap (λ n. xor (leb n c) (odd_below qs c)) (sym e))))

-- Strict lists with the same codes are the same list.
pub contains_unique :
    (ps qs : List ℕ)
    → Strict 0 ps × IsEven ps
    → Strict 0 qs × IsEven qs
    → ((c : ℕ) → contains ps c ≡ contains qs c)
    → ps ≡ qs
contains_unique ps qs s t same = odd_below_unique 0 ps qs s.0 t.0 λ c.
    sym (contains-eq-odd_below 0 ps c (Strict-Ascending 0 ps s.0) s.1)
    ∙ same c
    ∙ contains-eq-odd_below 0 qs c (Strict-Ascending 0 qs t.0) t.1
