-- ===== src/CharRange/OpLoop.antt =====
-- The loop of `cr_op` to its end.
use quickjs_rs.Base.{ℕ, zero, suc, ◌+◌, ◌<◌, ◌≡◌, refl, arith, leb}
use quickjs_rs.Base.{List, [], ◌∷◌, ◌++◌, Bool, true, false, not, ◌&&◌, xor, length, if◌then◌else◌}
use quickjs_rs.Base.{◌∙◌, sym, ap, ap₂, Bool-cases, inl, inr, xor-false}
use mathlib.Core.List.{append-nil, append_assoc}
use quickjs_rs.CharRange.{
  CharRange, CharRangeOp, is_in, is_odd, pull, Pull, finished, point, NextPoint,
}
use quickjs_rs.CharRange.{cr_add_point, op_loop}
use quickjs_rs.CharRange.Meaning.{odd_below, Ascending, Ascending-weaken, is_odd-snoc, is_odd-nil}
use quickjs_rs.CharRange.Merge.{
  Pulled, PulledOr, pull_lem, Put, cr_add_point-Put, unchanged-Put, Merged, parity_step, ends_step,
}

-- The points that a round adds.
abbrev new_points : Bool → ℕ → List ℕ
new_points change v = if change then v ∷ [] else []

module _ {H : Type 0} (realloc : H → ℕ → H × Bool) (op : CharRangeOp) where
  -- The parity of the points after a round.
  odd_after :
      (status : Bool) (points after : List ℕ) (v : ℕ)
      → after ≡ points ++ new_points (xor status (is_odd points)) v
      → is_odd after ≡ status
  odd_after status points after v e = elim (Bool-cases (xor status (is_odd points))) [
    | inl change ↦
        ap is_odd (e ∙ ap (λ c. points ++ new_points c v) change)
        ∙ is_odd-snoc points v
        ∙ flip status (is_odd points) change
    | inr same ↦
        ap is_odd (e ∙ ap (λ c. points ++ new_points c v) same ∙ append-nil points)
        ∙ agree status (is_odd points) same
  ]
    where
      flip : (s o : Bool) → xor s o ≡ true → not o ≡ s
      flip s o e = ground arith

      agree : (s o : Bool) → xor s o ≡ false → o ≡ s
      agree s o e = ground arith

  finished-Merged :
      (h : H) (cr : CharRange) (a b : List ℕ) (a_odd b_odd : Bool) (lo : ℕ)
      → is_odd cr.points ≡ is_in op a_odd b_odd
      → a ≡ []
      → b ≡ []
      → Merged realloc op lo cr a b a_odd b_odd (h, cr, true)
  finished-Merged h cr a b a_odd b_odd lo start ea eb = record {
    added = [];
    appended = λ p. sym (append-nil cr.points);
    sorted = tt;
    parity = λ p c.
        xor-false (is_in op a_odd b_odd)
        ∙ sym (ap₂ (is_in op) (below a_odd a ea c) (below b_odd b eb c));
    ends = λ p. start ∙ sym (ap₂ (is_in op) (count a_odd a ea) (count b_odd b eb));
    succeeds = λ good. refl;
  }
    where
      below : (o : Bool) (l : List ℕ) → l ≡ [] → (c : ℕ) → xor o (odd_below l c) ≡ o
      below o l e c = ap (λ l. xor o (odd_below l c)) e ∙ xor-false o

      count : (o : Bool) (l : List ℕ) → l ≡ [] → xor o (is_odd l) ≡ o
      count o l e = ap (λ l. xor o (is_odd l)) e ∙ ap (xor o) is_odd-nil ∙ xor-false o

  -- A round that takes the point `p`, then a loop from what it leaves.
  round-Merged :
      (cr : CharRange) (a b : List ℕ) (a_odd b_odd : Bool) (lo : ℕ) (p : NextPoint)
      (u : Pulled lo a b p) (change : Bool) (r1 r : H × CharRange × Bool)
      → xor (is_in op a_odd b_odd) change ≡ is_in op (xor a_odd p.from_a) (xor b_odd p.from_b)
      → r1.2 ≡ true
      → Put realloc cr (new_points change p.v) r1
      → Merged realloc op p.v r1.1 p.a p.b (xor a_odd p.from_a) (xor b_odd p.from_b) r
      → Merged realloc op lo cr a b a_odd b_odd r
  round-Merged cr a b a_odd b_odd lo p u change r1 r e done put m = record {
    added = new_points change p.v ++ m.added;
    appended = λ q.
        m.appended q
        ∙ ap (λ l. l ++ m.added) (put.added done)
        ∙ append_assoc cr.points (new_points change p.v) m.added;
    sorted = in_order change;
    parity = λ q c.
        ap (xor (is_in op a_odd b_odd)) (split change c)
        ∙ parity_step op p u a_odd b_odd c change m.added e m.sorted (m.parity q c);
    ends = λ q. m.ends q ∙ ends_step op p u a_odd b_odd;
    succeeds = m.succeeds;
  }
    where
      in_order : (change : Bool) → Ascending lo (new_points change p.v ++ m.added)
      in_order true = (u.from_lo, m.sorted)
      in_order false = Ascending-weaken p.v lo m.added u.from_lo m.sorted

      split :
          (change : Bool) (c : ℕ)
          → odd_below (new_points change p.v ++ m.added) c
            ≡ xor (change && leb p.v c) (odd_below m.added c)
      split true c = refl
      split false c = refl

  failed-Merged :
      (h : H) (cr cr' : CharRange) (a b : List ℕ) (a_odd b_odd : Bool) (lo : ℕ) (vs : List ℕ)
      → Put realloc cr vs (h, cr', false)
      → Merged realloc op lo cr a b a_odd b_odd (h, cr', false)
  failed-Merged h cr cr' a b a_odd b_odd lo vs put = record {
    added = [];
    appended = λ p. absurd (cc);
    sorted = tt;
    parity = λ p c. absurd (let no : ⊥ = cc in no);
    ends = λ p. absurd (cc);
    succeeds = λ good. put.succeeds good;
  }

  -- One round of the loop, where the loop on less fuel does as it should.
  step-Merged :
      (fuel : ℕ)
      → ((h : H) (cr : CharRange) (a b : List ℕ) (a_odd b_odd : Bool) (lo : ℕ)
          → length a + length b < fuel
          → Ascending lo a
          → Ascending lo b
          → is_odd cr.points ≡ is_in op a_odd b_odd
          → Merged realloc op lo cr a b a_odd b_odd (op_loop realloc fuel op h cr a b a_odd b_odd))
      → (h : H) (cr : CharRange) (a b : List ℕ) (a_odd b_odd : Bool) (lo : ℕ)
      → length a + length b < suc fuel
      → Ascending lo a
      → Ascending lo b
      → is_odd cr.points ≡ is_in op a_odd b_odd
      → Merged realloc op lo cr a b a_odd b_odd (op_loop realloc (suc fuel) op h cr a b a_odd b_odd)
  unfolding op_loop
  step-Merged fuel ih h cr a b a_odd b_odd lo enough sa sb start =
      go (pull a b) refl (pull_lem lo a b sa sb)
    where
      status : NextPoint → Bool
      status p = is_in op (xor a_odd p.from_a) (xor b_odd p.from_b)

      change : NextPoint → Bool
      change p = xor (status p) (is_odd cr.points)

      added : NextPoint → H × CharRange × Bool
      added p = if change p then cr_add_point realloc h cr p.v else (h, cr, true)

      put_if :
          (v : ℕ) (c : Bool)
          → Put realloc cr
              (new_points c v)
              (if c then cr_add_point realloc h cr v else (h, cr, true))
      put_if v true = cr_add_point-Put realloc h cr v
      put_if v false = unchanged-Put realloc h cr

      added-Put : (p : NextPoint) → Put realloc cr (new_points (change p) p.v) (added p)
      added-Put p = put_if p.v (change p)

      cancel : (s t o : Bool) → o ≡ s → xor s (xor t o) ≡ t
      cancel s t o e = ground arith

      next :
          (p : NextPoint)
          → Pulled lo a b p
          → (r : H × CharRange × Bool) → Put realloc cr (new_points (change p) p.v) r
          → Merged realloc op lo cr a b a_odd b_odd (elim r.2 [
            | true ↦
                op_loop realloc fuel op r.0 r.1 p.a p.b (xor a_odd p.from_a) (xor b_odd p.from_b)
            | false ↦ (r.0, r.1, false)
          ])
      next p u (h', cr', true) put =
          round-Merged cr a b a_odd b_odd lo p u (change p) (h', cr', true) _
            (cancel (is_in op a_odd b_odd) (status p) (is_odd cr.points) start) refl put
            (ih h' cr' p.a p.b (xor a_odd p.from_a) (xor b_odd p.from_b) p.v
              (omega (arith, u.fewer)) u.sorted_a u.sorted_b
              (odd_after (status p) cr.points cr'.points p.v (put.added refl)))
      next p u (h', cr', false) put = failed-Merged h' cr cr' a b a_odd b_odd lo _ put

      go :
          (q : Pull)
          → pull a b ≡ q
          → PulledOr lo a b q
          → Merged realloc op lo cr a b a_odd b_odd
              (op_loop realloc (suc fuel) op h cr a b a_odd b_odd)
      go finished e u = rw (e, op_loop) (finished-Merged h cr a b a_odd b_odd lo start u.0 u.1)
      go (point p) e u = rw (e, op_loop) (next p u (added p) (added-Put p))

  -- With fuel for the points that are left, the loop ends as it should.
  pub op_loop-Merged :
      (fuel : ℕ) (h : H) (cr : CharRange) (a b : List ℕ) (a_odd b_odd : Bool) (lo : ℕ)
      → length a + length b < fuel
      → Ascending lo a
      → Ascending lo b
      → is_odd cr.points ≡ is_in op a_odd b_odd
      → Merged realloc op lo cr a b a_odd b_odd (op_loop realloc fuel op h cr a b a_odd b_odd)
  op_loop-Merged zero h cr a b a_odd b_odd lo enough sa sb start = elim enough [ ]
  op_loop-Merged (suc fuel) h cr a b a_odd b_odd lo enough sa sb start =
      step-Merged fuel (op_loop-Merged fuel) h cr a b a_odd b_odd lo enough sa sb start
