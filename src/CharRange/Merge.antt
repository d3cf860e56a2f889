-- ===== src/CharRange/Merge.antt =====
-- The loop of `cr_op`: its points, in order, have at each code the parity that the operation makes
-- of the parities of the arguments.
use quickjs_rs.CharRange.Meaning.{is_odd-cons}
use quickjs_rs.Base.{xor_assoc, xor-false, ap₂, dec_lt, max}
use quickjs_rs.Base.{ℕ, ◌+◌, ◌*◌, ◌/◌, ◌≤◌, ◌<◌, ◌≡◌, refl, arith, ltb, leb, ◌==◌}
use quickjs_rs.Base.{
  List, [], ◌∷◌, ◌++◌, Bool, true, false, ◌&&◌, xor, length, ◌∙◌, sym, ap, if_cases,
}
use mathlib.Core.List.{append-nil}
use quickjs_rs.CharRange.{
  CharRange, CharRangeOp, is_in, is_odd, pull, Pull, finished, point, NextPoint, cr_realloc,
  cr_add_point, put_points,
}
use quickjs_rs.CharRange.Meaning.{odd_below, Ascending, Ascending-weaken, odd_below_above}

-- What is left to read of two arrays, from `lo` on, after one point was taken.
pub record Pulled (lo : ℕ) (a b : List ℕ) (p : NextPoint) : Type 0 where
  pub from_lo : lo ≤ p.v
  pub sorted_a : Ascending p.v p.a
  pub sorted_b : Ascending p.v p.b
  pub parity_a : (c : ℕ) → odd_below a c ≡ xor (p.from_a && leb p.v c) (odd_below p.a c)
  pub parity_b : (c : ℕ) → odd_below b c ≡ xor (p.from_b && leb p.v c) (odd_below p.b c)
  pub odd_a : is_odd a ≡ xor p.from_a (is_odd p.a)
  pub odd_b : is_odd b ≡ xor p.from_b (is_odd p.b)
  pub fewer : length p.a + length p.b < length a + length b

abbrev pub PulledOr : ℕ → List ℕ → List ℕ → Pull → Type 0
PulledOr lo a b finished = (a ≡ []) × (b ≡ [])
PulledOr lo a b (point p) = Pulled lo a b p

pub pull_lem :
    (lo : ℕ) (a b : List ℕ) → Ascending lo a → Ascending lo b → PulledOr lo a b (pull a b)
unfolding pull
pull_lem lo [] [] sa sb = (refl, refl)
pull_lem lo (x ∷ a) [] sa sb = record {
  from_lo = sa.0;
  sorted_a = sa.1;
  sorted_b = tt;
  parity_a = λ c. refl;
  parity_b = λ c. refl;
  odd_a = is_odd-cons x a;
  odd_b = refl;
  fewer = omega arith;
}
pull_lem lo [] (y ∷ b) sa sb = record {
  from_lo = sb.0;
  sorted_a = tt;
  sorted_b = sb.1;
  parity_a = λ c. refl;
  parity_b = λ c. refl;
  odd_a = refl;
  odd_b = is_odd-cons y b;
  fewer = omega arith;
}
pull_lem lo (x ∷ a) (y ∷ b) sa sb =
    if_cases (PulledOr lo (x ∷ a) (y ∷ b)) (ltb x y)
      (λ less. record {
        from_lo = sa.0;
        sorted_a = sa.1;
        sorted_b = (ground arith, sb.1);
        parity_a = λ c. refl;
        parity_b = λ c. refl;
        odd_a = is_odd-cons x a;
        odd_b = refl;
        fewer = omega arith;
      })
      (λ not_less.
        if_cases (PulledOr lo (x ∷ a) (y ∷ b)) (x == y)
          (λ same. record {
            from_lo = sa.0;
            sorted_a = sa.1;
            sorted_b = Ascending-weaken y x b (ground arith) sb.1;
            parity_a = λ c. refl;
            parity_b = λ c. ap (λ n. xor (leb n c) (odd_below b c)) (ground arith);
            odd_a = is_odd-cons x a;
            odd_b = is_odd-cons y b;
            fewer = omega arith;
          })
          (λ differ. record {
            from_lo = sb.0;
            sorted_a = (ground arith, sa.1);
            sorted_b = sb.1;
            parity_a = λ c. refl;
            parity_b = λ c. refl;
            odd_a = refl;
            odd_b = is_odd-cons y b;
            fewer = omega arith;
          }))

module _ {H : Type 0} (realloc : H → ℕ → H × Bool) where
  abbrev pub NeverFails : Type 0
  NeverFails = (h : H) (n : ℕ) → (realloc h n).1 ≡ true

  -- What a growth followed by a write of points leaves.
  pub record Put (cr : CharRange) (vs : List ℕ) (r : H × CharRange × Bool) : Type 0 where
    pub added : r.2 ≡ true → r.1.points ≡ cr.points ++ vs
    pub kept : r.2 ≡ false → r.1.points ≡ cr.points
    pub succeeds : NeverFails → r.2 ≡ true

  pub cr_realloc-Put : (h : H) (cr : CharRange) (n : ℕ) → Put cr [] (cr_realloc realloc h cr n)
  unfolding cr_realloc
  cr_realloc-Put h cr n = record {
    added = λ p. ground (arith, append-nil cr.points);
    kept = λ p. ground arith;
    succeeds = λ good. ground (arith, good h (max n (cr.size * 3 / 2)));
  }

  put_points-Put :
      (cr : CharRange) (vs : List ℕ) (r : H × CharRange × Bool)
      → Put cr [] r
      → Put cr vs (put_points realloc r vs)
  unfolding put_points
  put_points-Put cr vs (h, cr', true) g = record {
    added = λ p. ap (λ l. l ++ vs) (g.added refl ∙ append-nil cr.points);
    kept = λ p. absurd (cc);
    succeeds = λ good. refl;
  }
  put_points-Put cr vs (h, cr', false) g = record {
    added = λ p. absurd (cc);
    kept = λ p. g.kept refl;
    succeeds = λ good. g.succeeds good;
  }

  pub unchanged-Put : (h : H) (cr : CharRange) → Put cr [] (h, cr, true)
  unchanged-Put h cr = record {
    added = λ p. sym (append-nil cr.points);
    kept = λ p. refl;
    succeeds = λ good. refl;
  }

  pub cr_add_point-Put :
      (h : H) (cr : CharRange) (v : ℕ) → Put cr (v ∷ []) (cr_add_point realloc h cr v)
  unfolding cr_add_point
  cr_add_point-Put h cr v = put_points-Put cr (v ∷ []) _ (
      if_cases (Put cr []) (leb cr.size (length cr.points))
        (λ full. cr_realloc-Put h cr (length cr.points + 1)) (λ room. unchanged-Put h cr))

  -- What the loop leaves when it ends: the points added are from `lo` on, and at each code they
  -- turn the status so far into that of the operation.
  pub record Merged (op : CharRangeOp) (lo : ℕ) (cr : CharRange) (a b : List ℕ) (a_odd b_odd : Bool)
      (r : H × CharRange × Bool) : Type 0 where
    pub added : List ℕ
    pub appended : r.2 ≡ true → r.1.points ≡ cr.points ++ added
    pub sorted : Ascending lo added
    pub parity :
        r.2 ≡ true
        → (c : ℕ)
        → xor (is_in op a_odd b_odd) (odd_below added c)
          ≡ is_in op (xor a_odd (odd_below a c)) (xor b_odd (odd_below b c))
    pub ends :
        r.2 ≡ true → is_odd r.1.points ≡ is_in op (xor a_odd (is_odd a)) (xor b_odd (is_odd b))
    pub succeeds : NeverFails → r.2 ≡ true

-- The parities of both arrays at `c`, once a point was taken from them.
module _ (op : CharRangeOp) {lo : ℕ} {a b : List ℕ} (p : NextPoint) (u : Pulled lo a b p)
    (a_odd b_odd : Bool) where
  abbrev pub status_after : Bool
  status_after = is_in op (xor a_odd p.from_a) (xor b_odd p.from_b)

  -- At a code from the point on, the point counts.
  from_point :
      (c : ℕ)
      → p.v ≤ c
      → is_in op (xor a_odd (odd_below a c)) (xor b_odd (odd_below b c))
        ≡ is_in op
            (xor (xor a_odd p.from_a) (odd_below p.a c))
            (xor (xor b_odd p.from_b) (odd_below p.b c))
  from_point c h =
      rw
        (
          xor_assoc a_odd p.from_a (odd_below p.a c),
          xor_assoc b_odd p.from_b (odd_below p.b c),
          taken p.from_a (odd_below p.a c),
          taken p.from_b (odd_below p.b c),
        )
        (ap₂ (λ x y. is_in op (xor a_odd x) (xor b_odd y)) (u.parity_a c) (u.parity_b c))
    where
      taken : (f x : Bool) → xor f x ≡ xor (f && leb p.v c) x
      taken f x = ground arith

  -- Below the point nothing is left to count.
  below_point :
      (c : ℕ)
      → c < p.v
      → is_in op (xor a_odd (odd_below a c)) (xor b_odd (odd_below b c)) ≡ is_in op a_odd b_odd
  below_point c h =
      ap₂ (λ x y. is_in op (xor a_odd x) (xor b_odd y))
        (u.parity_a c ∙ none_of p.from_a (odd_below p.a c) (odd_below_above p.v p.a c u.sorted_a h))
        (u.parity_b c ∙ none_of p.from_b (odd_below p.b c) (odd_below_above p.v p.b c u.sorted_b h))
      ∙ ap₂ (is_in op) (xor-false a_odd) (xor-false b_odd)
    where
      none_of : (f x : Bool) → x ≡ false → xor (f && leb p.v c) x ≡ false
      none_of f x e = ground arith

  -- The status at `c` after the loop, where the point is added if the status changes.
  pub parity_step :
      (c : ℕ) (change : Bool) (rest : List ℕ)
      → xor (is_in op a_odd b_odd) change ≡ status_after
      → Ascending p.v rest
      → xor status_after (odd_below rest c)
        ≡ is_in op
            (xor (xor a_odd p.from_a) (odd_below p.a c))
            (xor (xor b_odd p.from_b) (odd_below p.b c))
      → xor (is_in op a_odd b_odd) (xor (change && leb p.v c) (odd_below rest c))
        ≡ is_in op (xor a_odd (odd_below a c)) (xor b_odd (odd_below b c))
  parity_step c change rest e sorted ih = elim (dec_lt c p.v) [
    | yes h ↦
        rw (below_point c h, odd_below_above p.v rest c sorted h)
          (still (is_in op a_odd b_odd) change h)
    | no h ↦
        rw (from_point c (omega arith), ← ih, ← e)
          (regroup (is_in op a_odd b_odd) change (odd_below rest c) (omega arith))
  ]
    where
      still : (s change : Bool) → c < p.v → xor s (xor (change && leb p.v c) false) ≡ s
      still s change h = ground arith

      regroup :
          (s change x : Bool) → p.v ≤ c → xor s (xor (change && leb p.v c) x) ≡ xor (xor s change) x
      regroup s change x h = ground arith

  pub ends_step :
      is_in op (xor (xor a_odd p.from_a) (is_odd p.a)) (xor (xor b_odd p.from_b) (is_odd p.b))
      ≡ is_in op (xor a_odd (is_odd a)) (xor b_odd (is_odd b))
  ends_step =
      ap₂ (is_in op) (xor_assoc a_odd p.from_a (is_odd p.a) ∙ ap (xor a_odd) (sym u.odd_a))
        (xor_assoc b_odd p.from_b (is_odd p.b) ∙ ap (xor b_odd) (sym u.odd_b))
