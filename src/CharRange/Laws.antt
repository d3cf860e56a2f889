-- ===== src/CharRange/Laws.antt =====
-- What the operations on ranges do to the set of codes.
use quickjs_rs.Base.{ℕ, ◌+◌, ◌-◌, ◌^◌, ◌≤◌, ◌<◌, ◌≡◌, refl, arith, leb}
use quickjs_rs.Base.{
  List, [], ◌∷◌, ◌++◌, Bool, true, false, not, ◌&&◌, ◌||◌, xor, length, ◌∙◌, sym, ap, ap₂, u32,
}
use quickjs_rs.CharRange.{
  CharRange, CharRangeOp, union, inter, exclusive, is_in, is_odd, cr_op, compress_done, cr_init,
  cr_union1, cr_union_interval, cr_compress,
}
use quickjs_rs.CharRange.Meaning.{
  contains, odd_below, Ascending, Strict, Strict-Ascending, IsEven, contains-eq-odd_below,
  IsEven-of_parity, is_odd_of_IsEven, is_odd-nil,
}
use quickjs_rs.CharRange.Merge.{NeverFails, Merged}
use quickjs_rs.CharRange.OpLoop.{op_loop-Merged}
use quickjs_rs.CharRange.Squeeze.{squeeze, odd_below-squeeze, Strict-squeeze, IsEven-squeeze}
use quickjs_rs.CharRange.Compress.{cr_compress-squeeze}

-- Sorted points, an even number of them: what the functions demand of their arguments.
abbrev pub IsSorted : List ℕ → Type 0
IsSorted ps = Ascending 0 ps × IsEven ps

-- What they leave: no empty interval, and no two that touch.
abbrev pub IsCanonical : List ℕ → Type 0
IsCanonical ps = Strict 0 ps × IsEven ps

pub canonical-IsSorted : (ps : List ℕ) → IsCanonical ps → IsSorted ps
canonical-IsSorted ps s = (Strict-Ascending 0 ps s.0, s.1)

-- Compression of sorted points keeps their codes and makes them canonical.
pub compressed :
    (cr : CharRange)
    → IsSorted cr.points
    → IsCanonical (cr_compress cr).points
      × ((c : ℕ) → contains (cr_compress cr).points c ≡ contains cr.points c)
compressed cr s = rw (cr_compress-squeeze cr) (
  (strict, even),
  λ c.
      contains-eq-odd_below 0 (squeeze cr.points) c (Strict-Ascending 0 (squeeze cr.points) strict)
        even
      ∙ odd_below-squeeze cr.points c s.1
      ∙ sym (contains-eq-odd_below 0 cr.points c s.0 s.1),
)
  where
    strict : Strict 0 (squeeze cr.points)
    strict = Strict-squeeze 0 cr.points s.0

    even : IsEven (squeeze cr.points)
    even = IsEven-squeeze cr.points

-- Whether a code belongs to the result, from whether it belongs to each argument.
abbrev pub combined : CharRangeOp → Bool → Bool → Bool
combined union true b = true
combined union false b = b
combined inter true b = b
combined inter false b = false
combined exclusive true b = not b
combined exclusive false b = b

is_in-combined : (op : CharRangeOp) (a b : Bool) → is_in op a b ≡ combined op a b
unfolding is_in
is_in-combined union true b = refl
is_in-combined union false b = refl
is_in-combined inter true b = refl
is_in-combined inter false b = refl
is_in-combined exclusive true b = refl
is_in-combined exclusive false b = refl

module _ {H : Type 0} (realloc : H → ℕ → H × Bool) where
  -- The result of an operation on an empty range, from sorted arguments.
  pub record Operated (op : CharRangeOp) (a b : List ℕ) (r : H × CharRange × Bool) : Type 0 where
    pub canonical : r.2 ≡ true → IsCanonical r.1.points
    pub codes :
        r.2 ≡ true → (c : ℕ) → contains r.1.points c ≡ combined op (contains a c) (contains b c)
    pub succeeds : NeverFails realloc → r.2 ≡ true

  compress_done-Operated :
      (op : CharRangeOp) (a b : List ℕ) (cr : CharRange) (r : H × CharRange × Bool)
      → cr.points ≡ []
      → IsSorted a
      → IsSorted b
      → Merged realloc op 0 cr a b false false r
      → Operated op a b (compress_done realloc r)
  unfolding compress_done
  compress_done-Operated op a b cr (h, cr', true) e sa sb m = record {
    canonical = λ p. done.0;
    codes = λ p c.
        done.1 c
        ∙ contains-eq-odd_below 0 cr'.points c sorted.0 sorted.1
        ∙ ap (λ l. odd_below l c) points
        ∙ ap (λ x. xor x (odd_below m.added c)) (sym none_in)
        ∙ m.parity refl c
        ∙ ap₂ (is_in op) (sym (contains-eq-odd_below 0 a c sa.0 sa.1))
            (sym (contains-eq-odd_below 0 b c sb.0 sb.1))
        ∙ is_in-combined op (contains a c) (contains b c);
    succeeds = λ good. refl;
  }
    where
      points : cr'.points ≡ m.added
      points = m.appended refl ∙ ap (λ l. l ++ m.added) e

      none_in : is_in op false false ≡ false
      none_in = unfold is_in in ground arith

      sorted : IsSorted cr'.points
      sorted = (
        rw points m.sorted,
        IsEven-of_parity cr'.points (
            m.ends refl
            ∙ ap₂ (is_in op) (is_odd_of_IsEven a sa.1) (is_odd_of_IsEven b sb.1)
            ∙ none_in),
      )

      done :
          IsCanonical (cr_compress cr').points
          × ((c : ℕ) → contains (cr_compress cr').points c ≡ contains cr'.points c)
      done = compressed cr' sorted
  compress_done-Operated op a b cr (h, cr', false) e sa sb m = record {
    canonical = λ p. absurd (let no : ⊥ = cc in no);
    codes = λ p c. absurd (let no : ⊥ = cc in no);
    succeeds = m.succeeds;
  }

  -- `cr_op` on an empty range and sorted arguments: if it returns 0, the points are canonical and
  -- hold a code exactly when it is in one of the arguments, in both or in just one of them, as
  -- `op` says; and it returns 0 when the
  -- allocator never fails.
  pub cr_op-Operated :
      (op : CharRangeOp) (h : H) (cr : CharRange) (a b : List ℕ)
      → cr.points ≡ []
      → IsSorted a
      → IsSorted b
      → Operated op a b (cr_op realloc h cr a b op)
  unfolding cr_op
  cr_op-Operated op h cr a b e sa sb = compress_done-Operated op a b cr _ e sa sb (
      op_loop-Merged realloc op (length a + length b + 1) h cr a b false false 0 (omega arith) sa.0
        sb.0 (ap is_odd e ∙ is_odd-nil ∙ sym (unfold is_in in ground arith)))

  -- `cr_union1` replaces the range by its union with sorted points.
  pub cr_union1-Operated :
      (free : H → H) (h : H) (cr : CharRange) (b : List ℕ)
      → IsSorted cr.points
      → IsSorted b
      → Operated union cr.points b (cr_union1 realloc free h cr b)
  unfolding cr_union1 cr_init
  cr_union1-Operated free h cr b s sb =
      let o = cr_op-Operated union h cr_init cr.points b refl s sb in
      record { canonical = o.canonical; codes = o.codes; succeeds = o.succeeds }

  -- `cr_union_interval` adds the codes from `c1` to `c2`, both included, if `c2 + 1` fits 32 bits.
  pub cr_union_interval_codes :
      (free : H → H) (h : H) (cr : CharRange) (c1 c2 : ℕ)
      → IsSorted cr.points
      → c1 ≤ c2
      → c2 < 2 ^ 32 - 1
      → (cr_union_interval realloc free h cr c1 c2).2 ≡ true
      → IsCanonical (cr_union_interval realloc free h cr c1 c2).1.points
        × ((c : ℕ)
            → contains (cr_union_interval realloc free h cr c1 c2).1.points c
              ≡ contains cr.points c || (leb c1 c && leb c c2))
  unfolding cr_union_interval is_in
  cr_union_interval_codes free h cr c1 c2 s le fits =
      let o = cr_union1-Operated free h cr (c1 ∷ u32 (c2 + 1) ∷ []) s ((omega arith), tt) in
      λ good. (
        o.canonical good,
        λ c.
            o.codes good c
            ∙ sym (is_in-combined union (contains cr.points c) _)
            ∙ ap (λ x. contains cr.points c || x) (bounds c),
      )
    where
      bounds : (c : ℕ) → contains (c1 ∷ u32 (c2 + 1) ∷ []) c ≡ (leb c1 c && leb c c2)
      bounds c = ground arith
