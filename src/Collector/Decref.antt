-- ===== src/Collector/Decref.antt =====
-- `gc_decref` takes the references of the heap off all counts and parts the objects by what is left.
use quickjs_rs.Base.{
  ℕ, ◌+◌, ◌-◌, ◌≤◌, ◌<◌, ◌≡◌, ◌≢◌, sym, ap, ◌∙◌, arith, List, [], ◌∷◌, ◌++◌, true, false, ◌==◌,
  ◌&&◌, ltb, ltb→lt, Bool-cases, inl, inr, if_cases,
}
use quickjs_rs.Collector.Marking.{Objects}
use quickjs_rs.Collector.Passes.{Gc, remove, unlink, move_to_tmp, set_ref_count, gc_decref_child}
use quickjs_rs.Collector.Sums.{
  bit, bit_self, bit-apart, count, refs, sum-append, sum-remove, remove-absent, remove-append,
}
use quickjs_rs.Collector.Invariants.{Yields, Decref, assign-at, assign-away}

module _ (m : Objects) (rc0 : ℕ → ℕ) (visited marked rest pending : List ℕ) where
  module _ (x : ℕ) (s : Gc) (d : Decref m rc0 visited marked rest pending (x ∷ []) s)
      (member : 0 < count x d.seen) (once : count x marked ≤ 1) where
    not_in_tmp : count x s.tmp_obj_list ≡ 0
    not_in_tmp = omega (arith, d.sums (bit x))

    positive_rest : (o : ℕ) → 0 < count o (remove x d.seen) → 0 < s.ref_count o + count o []
    positive_rest o h = elim (Bool-cases (x == o)) [
      | inl e ↦
          let same : o ≡ x = ground arith in
          let none_left : 0 < count x (remove x d.seen) = rw (same) at h in
          absurd (omega (arith, sum-remove (bit x) x d.seen member, d.sums (bit x), bit_self x))
      | inr e ↦
          let apart : x ≢ o = ground arith in
          omega (
            arith,
            sum-remove (bit o) x d.seen member,
            bit-apart o x apart,
            d.positive o (omega (arith, sum-remove (bit o) x d.seen member)),
          )
    ]

    dead_moved :
        s.ref_count x ≡ 0 → (o : ℕ) → 0 < count o (s.tmp_obj_list ++ (x ∷ [])) → s.ref_count o ≡ 0
    dead_moved zero_left o h = elim (Bool-cases (x == o)) [
      | inl e ↦ let same : o ≡ x = ground arith in ap s.ref_count same ∙ zero_left
      | inr e ↦
          let apart : x ≢ o = ground arith in
          d.dead o (omega (arith, sum-append (bit o) s.tmp_obj_list (x ∷ []), bit-apart o x apart))
    ]

    -- An object of `seen` with no reference left is moved.
    pub moved : s.ref_count x ≡ 0 → Decref m rc0 visited marked rest pending [] (move_to_tmp x s)
    unfolding move_to_tmp unlink
    moved zero_left = record {
      seen = remove x d.seen;
      list = ap (remove x) d.list ∙ remove-append x d.seen rest member;
      balance = d.balance;
      marks = d.marks;
      sums = λ f. rw (remove-absent x s.tmp_obj_list not_in_tmp) (
          omega
            (arith, sum-remove f x d.seen member, sum-append f s.tmp_obj_list (x ∷ []), d.sums f));
      positive = positive_rest;
      dead = λ o h. dead_moved zero_left o (rw (remove-absent x s.tmp_obj_list not_in_tmp) at h);
    }

    -- It stays where it still has one.
    pub stays : s.ref_count x ≢ 0 → Decref m rc0 visited marked rest pending [] s
    stays left = record {
      seen = d.seen;
      list = d.list;
      balance = d.balance;
      marks = d.marks;
      sums = d.sums;
      positive = λ o h. elim (Bool-cases (x == o)) [
        | inl e ↦ let same : x ≡ o = ground arith in omega (arith, left, ap s.ref_count same)
        | inr e ↦
            let apart : x ≢ o = ground arith in omega (arith, bit-apart o x apart, d.positive o h)
      ];
      dead = d.dead;
    }

both_tests : (a b : ℕ) → ((a == 0) && (b == 1)) ≡ true → (a ≡ 0) × (b ≡ 1)
both_tests a b h = ground arith

not_both : (a b : ℕ) → ((a == 0) && (b == 1)) ≡ false → b ≡ 1 → a ≢ 0
not_both a b h e = ground arith

module _ (m : Objects) (rc0 : ℕ → ℕ) (visited marked rest : List ℕ) where
  module _ (c : ℕ) (ps : List ℕ) (s : Gc) (d : Decref m rc0 visited marked rest (c ∷ ps) [] s)
      (enough : refs m c visited ≤ rc0 c) (once : count c marked ≤ 1) where
    abbrev lowered : Gc
    lowered = set_ref_count c (s.ref_count c - 1) s

    counted : 0 < s.ref_count c
    counted = omega (arith, d.balance c, bit_self c)

    -- A reference is taken off.
    lowered-Decref : Decref m rc0 visited marked rest ps (c ∷ []) lowered
    unfolding set_ref_count
    lowered-Decref = record {
      seen = d.seen;
      list = d.list;
      balance = λ o. elim (Bool-cases (o == c)) [
        | inl e ↦
            let same : c ≡ o = ground arith in
            rw (sym same) (
              omega (
                arith,
                assign-at s.ref_count c (s.ref_count c - 1),
                d.balance c,
                bit_self c,
                counted,
              ))
        | inr e ↦
            let apart : c ≢ o = ground arith in
            omega (
              arith,
              assign-away s.ref_count c (s.ref_count c - 1) o e,
              d.balance o,
              bit-apart o c apart,
            )
      ];
      marks = d.marks;
      sums = d.sums;
      positive = λ o h. elim (Bool-cases (o == c)) [
        | inl e ↦ let same : c ≡ o = ground arith in rw (sym same) (omega (arith, bit_self c))
        | inr e ↦ omega (arith, assign-away s.ref_count c (s.ref_count c - 1) o e, d.positive o h)
      ];
      dead = λ o h. elim (Bool-cases (o == c)) [
        | inl e ↦
            let same : o ≡ c = ground arith in
            absurd (omega (arith, d.dead o h, ap s.ref_count same, counted))
        | inr e ↦ omega (arith, assign-away s.ref_count c (s.ref_count c - 1) o e, d.dead o h)
      ];
    }

    not_dead : count c s.tmp_obj_list ≡ 0
    not_dead = elim (Bool-cases (ltb 0 (count c s.tmp_obj_list))) [
      | inl e ↦ absurd (omega (arith, counted, d.dead c (ltb→lt 0 _ e)))
      | inr e ↦ ground arith
    ]

    -- A marked object with a reference is in `seen`,
    marked_member : s.mark c ≡ 1 → 0 < count c lowered-Decref.seen
    unfolding set_ref_count
    marked_member is_marked =
        omega (arith, d.marks c, lowered-Decref.sums (bit c), not_dead, is_marked)

    -- and one that is not marked is not.
    unmarked_stays : s.mark c ≢ 1 → Decref m rc0 visited marked rest ps [] lowered
    unmarked_stays unmarked =
        let l : Decref m rc0 visited marked rest ps (c ∷ []) lowered = lowered-Decref in
        record {
          seen = l.seen;
          list = l.list;
          balance = l.balance;
          marks = l.marks;
          sums = l.sums;
          positive = λ o h. elim (Bool-cases (c == o)) [
            | inl e ↦
                let same : o ≡ c = ground arith in
                let member : 0 < count c l.seen = rw (same) at h in
                absurd (unmarked (omega (arith, d.marks c, once, l.sums (bit c), member)))
            | inr e ↦
                let apart : c ≢ o = ground arith in
                omega (arith, bit-apart o c apart, l.positive o h)
          ];
          dead = l.dead;
        }

    lowered_stays :
        ((lowered.ref_count c == 0) && (lowered.mark c == 1)) ≡ false
        → Decref m rc0 visited marked rest ps [] lowered
    unfolding set_ref_count
    lowered_stays other = elim (Bool-cases (s.mark c == 1)) [
      | inl e ↦
          let is_marked : s.mark c ≡ 1 = ground arith in
          let left : lowered.ref_count c ≢ 0 =
            not_both (lowered.ref_count c) (lowered.mark c) other is_marked in
          stays m rc0 visited marked rest ps c lowered lowered-Decref (marked_member is_marked) once
            left
      | inr e ↦ unmarked_stays (ground arith)
    ]

    -- The callback: the object is moved where it is marked and has no reference left.
    pub decref_child-Decref : Yields (Decref m rc0 visited marked rest ps []) (gc_decref_child c s)
    unfolding gc_decref_child
    decref_child-Decref =
        let live : ltb 0 (s.ref_count c) ≡ true = ground (arith, counted) in
        rw (live) (
          if_cases (Decref m rc0 visited marked rest ps [])
            ((lowered.ref_count c == 0) && (lowered.mark c == 1))
            (λ h.
              let (zero_left, is_marked) = both_tests (lowered.ref_count c) (lowered.mark c) h in
              moved m rc0 visited marked rest ps c lowered lowered-Decref (marked_member is_marked)
                once zero_left)
            lowered_stays)
