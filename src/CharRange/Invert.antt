-- ===== src/CharRange/Invert.antt =====
-- `cr_invert` takes the complement, and undoes itself.
use quickjs_rs.Base.{ℕ, ◌+◌, ◌-◌, ◌^◌, ◌≤◌, ◌<◌, ◌≡◌, refl, arith, ltb, leb, dec_lt}
use quickjs_rs.Base.{
  List, [], ◌∷◌, ◌++◌, Bool, true, false, not, ◌&&◌, xor, length, ◌∙◌, sym, ap, All,
}
use quickjs_rs.CharRange.{CharRange, cr_invert, invert_points}
use quickjs_rs.CharRange.Meaning.{
  contains, odd_below, Ascending, IsEven, contains-eq-odd_below, IsEven-of_parity, is_odd_of_IsEven,
  is_odd-snoc, is_odd-cons, odd_below-append,
}
use quickjs_rs.CharRange.Merge.{NeverFails, Put, cr_realloc-Put}
use quickjs_rs.CharRange.Laws.{IsSorted, IsCanonical, compressed, canonical-IsSorted}
use quickjs_rs.CharRange.Unique.{contains_unique}
use quickjs_rs.CharRange.Compress.{cr_compress-squeeze}
use quickjs_rs.CharRange.Squeeze.{squeeze-All}
use mathlib.Core.List.{append-nil}

-- UINT32_MAX
abbrev top : ℕ
top = 2 ^ 32 - 1

-- Every point is a `uint32_t`.
abbrev pub Fits : List ℕ → Type 0
Fits ps = All (λ p. p ≤ 2 ^ 32 - 1) ps

Ascending-snoc :
    (lo : ℕ) (ps : List ℕ) (m : ℕ)
    → lo ≤ m
    → Ascending lo ps
    → All (λ p. p ≤ m) ps
    → Ascending lo (ps ++ (m ∷ []))
Ascending-snoc lo [] m h s f = (h, tt)
Ascending-snoc lo (p ∷ ps) m h s f = (s.0, Ascending-snoc p ps m f.0 s.1 f.1)

bounded : List ℕ → List ℕ
bounded ps = (0 ∷ ps) ++ (top ∷ [])

bounded-IsSorted : (ps : List ℕ) → IsSorted ps → Fits ps → IsSorted (bounded ps)
unfolding bounded
bounded-IsSorted ps s f = (
  (omega arith, Ascending-snoc 0 ps top (omega arith) s.0 f),
  IsEven-of_parity (0 ∷ (ps ++ (top ∷ []))) (
      is_odd-cons 0 (ps ++ (top ∷ []))
      ∙ ap not (is_odd-snoc ps top ∙ ap not (is_odd_of_IsEven ps s.1))),
)

-- From the last point on, an even number of points counts.
odd_below_full :
    (ps : List ℕ) (m c : ℕ) → All (λ p. p ≤ m) ps → m ≤ c → IsEven ps → odd_below ps c ≡ false
odd_below_full [] m c f h e = refl
odd_below_full (p ∷ []) m c f h e = elim e [ ]
odd_below_full (p ∷ q ∷ ps) m c f h e =
    both p q (odd_below ps c) (omega arith) (omega arith) (odd_below_full ps m c f.1.1 h e)
  where
    both :
        (p q : ℕ) (x : Bool) → p ≤ c → q ≤ c → x ≡ false → xor (leb p c) (xor (leb q c) x) ≡ false
    both p q x hp hq e = ground arith

-- Past the last `uint32_t` the bounded list is outside.
contains-bounded :
    (ps : List ℕ) (c : ℕ)
    → IsSorted ps
    → Fits ps
    → contains (bounded ps) c ≡ (ltb c (2 ^ 32 - 1) && not (contains ps c))
unfolding bounded
contains-bounded ps c s f =
    contains-eq-odd_below 0 (bounded ps) c (bounded-IsSorted ps s f).0 (bounded-IsSorted ps s f).1
    ∙ from_zero (odd_below (ps ++ (top ∷ [])) c)
    ∙ ap not (odd_below-append ps (top ∷ []) c)
    ∙ elim (dec_lt c top) [
      | yes h ↦ below_top (odd_below ps c) h
      | no h ↦ past_top (odd_below ps c) (omega arith) (odd_below_full ps top c f (omega arith) s.1)
    ]
    ∙ ap (λ x. ltb c top && not x) (sym (contains-eq-odd_below 0 ps c s.0 s.1))
  where
    from_zero : (x : Bool) → xor (leb 0 c) x ≡ not x
    from_zero x = ground arith

    below_top : (x : Bool) → c < top → not (xor x (xor (leb top c) false)) ≡ (ltb c top && not x)
    below_top x h = ground arith

    past_top :
        (x : Bool)
        → top ≤ c
        → x ≡ false
        → not (xor x (xor (leb top c) false)) ≡ (ltb c top && not x)
    past_top x h e = ground arith

All-append : (P : ℕ → Type 0) (ps qs : List ℕ) → All P ps → All P qs → All P (ps ++ qs)
All-append P [] qs f g = g
All-append P (p ∷ ps) qs f g = (f.0, All-append P ps qs f.1 g)

bounded-Fits : (ps : List ℕ) → Fits ps → Fits (bounded ps)
unfolding bounded
bounded-Fits ps f = (omega arith, All-append (λ p. p ≤ top) ps (top ∷ []) f (omega arith))

module _ {H : Type 0} (realloc : H → ℕ → H × Bool) where
  -- What an inversion leaves.
  pub record Inverted (ps : List ℕ) (r : H × CharRange × Bool) : Type 0 where
    pub canonical : r.2 ≡ true → IsCanonical r.1.points
    pub codes :
        r.2 ≡ true → (c : ℕ) → contains r.1.points c ≡ (ltb c (2 ^ 32 - 1) && not (contains ps c))
    pub fits : r.2 ≡ true → Fits r.1.points
    pub kept : r.2 ≡ false → r.1.points ≡ ps
    pub succeeds : NeverFails realloc → r.2 ≡ true

  invert_points-Inverted :
      (cr : CharRange) (r : H × CharRange × Bool)
      → IsSorted cr.points
      → Fits cr.points
      → Put realloc cr [] r
      → Inverted cr.points (invert_points realloc r)
  unfolding invert_points bounded
  invert_points-Inverted cr (h, cr', true) s f put =
      let same : cr'.points ≡ cr.points = put.added refl ∙ append-nil cr.points in
      let all = record cr' { points = bounded cr'.points } in
      let done = compressed all (bounded-IsSorted cr'.points (rw same s) (rw same f)) in
      record {
        canonical = λ p. done.0;
        codes = λ p c.
            done.1 c
            ∙ contains-bounded cr'.points c (rw same s) (rw same f)
            ∙ ap (λ l. ltb c top && not (contains l c)) same;
        fits = λ p.
            rw (cr_compress-squeeze all)
              (squeeze-All (λ p. p ≤ top) all.points (bounded-Fits cr'.points (rw same f)));
        kept = λ p. absurd (let no : ⊥ = cc in no);
        succeeds = λ good. refl;
      }
  invert_points-Inverted cr (h, cr', false) s f put = record {
    canonical = λ p. absurd (let no : ⊥ = cc in no);
    codes = λ p c. absurd (let no : ⊥ = cc in no);
    fits = λ p. absurd (let no : ⊥ = cc in no);
    kept = λ p. put.kept refl;
    succeeds = put.succeeds;
  }

  -- `cr_invert` on sorted 32-bit points: the result is canonical and holds exactly the codes below
  -- UINT32_MAX that the range did not hold. A failure leaves the points as they were.
  pub cr_invert-Inverted :
      (h : H) (cr : CharRange)
      → IsSorted cr.points
      → Fits cr.points
      → Inverted cr.points (cr_invert realloc h cr)
  unfolding cr_invert
  cr_invert-Inverted h cr s f =
      invert_points-Inverted cr _ s f (cr_realloc-Put realloc h cr (length cr.points + 2))

  -- Inverting twice gives the points back, where they are canonical and the last is not
  -- UINT32_MAX, as in every range of code points.
  pub cr_invert_twice :
      (h : H) (cr : CharRange)
      → IsCanonical cr.points
      → All (λ p. p < 2 ^ 32 - 1) cr.points
      → ((h' : H) (n : ℕ) → (realloc h' n).1 ≡ true)
      → (cr_invert realloc (cr_invert realloc h cr).0 (cr_invert realloc h cr).1).1.points
        ≡ cr.points
  cr_invert_twice h cr s f good =
      contains_unique _ cr.points (second.canonical (second.succeeds good)) s λ c.
        second.codes (second.succeeds good) c
        ∙ ap (λ x. ltb c top && not x) (first.codes (first.succeeds good) c)
        ∙ elim (dec_lt c top) [
          | yes h ↦ twice (contains cr.points c) c h
          | no h ↦ past (contains cr.points c) c (omega arith) (outside c (omega arith))
        ]
    where
      sorted : IsSorted cr.points
      sorted = canonical-IsSorted cr.points s

      weaker : (ps : List ℕ) → All (λ p. p < top) ps → Fits ps
      weaker [] f = tt
      weaker (p ∷ ps) f = (omega arith, weaker ps f.1)

      first : Inverted cr.points (cr_invert realloc h cr)
      first = cr_invert-Inverted h cr sorted (weaker cr.points f)

      again : CharRange
      again = (cr_invert realloc h cr).1

      second : Inverted again.points (cr_invert realloc (cr_invert realloc h cr).0 again)
      second =
          cr_invert-Inverted (cr_invert realloc h cr).0 again
            (canonical-IsSorted again.points (first.canonical (first.succeeds good)))
            (first.fits (first.succeeds good))

      outside : (c : ℕ) → top ≤ c → contains cr.points c ≡ false
      outside c h =
          contains-eq-odd_below 0 cr.points c sorted.0 sorted.1
          ∙ odd_below_full cr.points top c (weaker cr.points f) h s.1

      twice : (x : Bool) (c : ℕ) → c < top → (ltb c top && not (ltb c top && not x)) ≡ x
      twice x c h = ground arith

      past : (x : Bool) (c : ℕ) → top ≤ c → x ≡ false → (ltb c top && not (ltb c top && not x)) ≡ x
      past x c h e = ground arith
