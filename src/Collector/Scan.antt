-- ===== src/Collector/Scan.antt =====
-- `gc_scan` puts the references of the objects that are kept back, and keeps what they refer to.
use mathlib.Core.List.{append_assoc}
use quickjs_rs.Base.{
  ℕ, ◌+◌, ◌≤◌, ◌<◌, ◌≡◌, ◌≢◌, sym, ap, ◌∙◌, arith, List, [], ◌∷◌, ◌++◌, Bool, true, false, ◌==◌,
  Bool-cases, inl, inr, ◌⊎◌, if_cases,
}
use quickjs_rs.Collector.Marking.{Objects}
use quickjs_rs.Collector.Passes.{
  Gc, assign, remove, unlink, move_to_gc, set_ref_count, set_mark, gc_scan_incref_child,
}
use quickjs_rs.Collector.Sums.{
  bit, bit_self, bit-apart, count, refs, zero_or_positive, sum-append, sum-remove, remove-absent,
}
use quickjs_rs.Collector.Invariants.{Yields, Scan, assign-at, assign-away}

module _ (m : Objects) (external : ℕ → ℕ) (objs visited : List ℕ)
    (once : (o : ℕ) → count o objs ≤ 1) (c : ℕ) (ps : List ℕ) (s : Gc)
    (d : Scan m external objs visited (c ∷ ps) s) where
  abbrev counts : ℕ → ℕ
  counts = assign s.ref_count c (s.ref_count c + 1)

  balance_raised : (o : ℕ) → counts o + count o ps ≡ external o + refs m o visited
  balance_raised o = elim (Bool-cases (o == c)) [
    | inl e ↦
        let same : c ≡ o = ground arith in
        rw (sym same)
          (omega (arith, assign-at s.ref_count c (s.ref_count c + 1), d.balance c, bit_self c))
    | inr e ↦
        let apart : c ≢ o = ground arith in
        omega (
          arith,
          assign-away s.ref_count c (s.ref_count c + 1) o e,
          d.balance o,
          bit-apart o c apart,
        )
  ]

  positive_raised : (o : ℕ) → 0 < s.ref_count o → 0 < counts o
  positive_raised o h = elim (Bool-cases (o == c)) [
    | inl e ↦
        let same : c ≡ o = ground arith in
        rw (sym same) (omega (arith, assign-at s.ref_count c (s.ref_count c + 1)))
    | inr e ↦ omega (arith, assign-away s.ref_count c (s.ref_count c + 1) o e)
  ]

  -- Where the object had a count before, it is in no list of garbage.
  raised-Scan :
      0 < s.ref_count c → Scan m external objs visited ps (set_ref_count c (s.ref_count c + 1) s)
  unfolding set_ref_count
  raised-Scan live = record {
    todo = d.todo;
    list = d.list;
    balance = balance_raised;
    sums = d.sums;
    positive = λ o h. positive_raised o (d.positive o h);
    dead = λ o h. elim (Bool-cases (o == c)) [
      | inl e ↦
          let same : o ≡ c = ground arith in
          absurd (omega (arith, d.dead o h, ap s.ref_count same, live))
      | inr e ↦ omega (arith, assign-away s.ref_count c (s.ref_count c + 1) o e, d.dead o h)
    ];
    clean = d.clean;
    reached = d.reached;
    reached_next = λ o h. d.reached_next o (omega arith);
    listed_next = λ o h. d.listed_next o (omega arith);
  }

  module _ (zero_before : s.ref_count c ≡ 0) where
    not_kept : count c s.gc_obj_list ≡ 0
    not_kept = elim (zero_or_positive (count c s.gc_obj_list)) [
      | inl e ↦ e
      | inr e ↦ absurd (omega (arith, d.positive c e, zero_before))
    ]

    garbage : count c s.tmp_obj_list ≡ 1
    garbage =
        omega (arith, d.sums (bit c), not_kept, once c, d.listed_next c (omega (arith, bit_self c)))

    kept_after :
        (o : ℕ) → 0 < count o (s.gc_obj_list ++ (c ∷ [])) → (o ≡ c) ⊎ (0 < count o s.gc_obj_list)
    kept_after o h = elim (Bool-cases (c == o)) [
      | inl e ↦ inl (ground arith)
      | inr e ↦
          let apart : c ≢ o = ground arith in
          inr (omega (arith, bit-apart o c apart, sum-append (bit o) s.gc_obj_list (c ∷ []), h))
    ]

    dead_after : (o : ℕ) → 0 < count o (remove c s.tmp_obj_list) → counts o ≡ 0
    dead_after o h = elim (Bool-cases (o == c)) [
      | inl e ↦
          let same : o ≡ c = ground arith in
          let left : 0 < count c (remove c s.tmp_obj_list) = rw (same) at h in
          absurd (
            omega (
              arith,
              sum-remove (bit c) c s.tmp_obj_list (omega (arith, garbage)),
              garbage,
              bit_self c,
              left,
            ))
      | inr e ↦
          let apart : c ≢ o = ground arith in
          let before : 0 < count o s.tmp_obj_list = omega (
            arith,
            sum-remove (bit o) c s.tmp_obj_list (omega (arith, garbage)),
            bit-apart o c apart,
            h,
          ) in
          omega (arith, assign-away s.ref_count c (s.ref_count c + 1) o e, d.dead o before)
    ]

    -- Else it is taken out of the garbage and put at the end of the objects to scan.
    kept-Scan :
        Scan m external objs visited ps
          (set_mark c 0 (move_to_gc c (set_ref_count c (s.ref_count c + 1) s)))
    unfolding set_mark move_to_gc set_ref_count unlink
    kept-Scan = record {
      todo = d.todo ++ (c ∷ []);
      list =
          ap (λ l. l ++ (c ∷ [])) (remove-absent c s.gc_obj_list not_kept ∙ d.list)
          ∙ append_assoc visited d.todo (c ∷ []);
      balance = balance_raised;
      sums = λ f. rw (remove-absent c s.gc_obj_list not_kept) (
          omega (
            arith,
            sum-append f s.gc_obj_list (c ∷ []),
            d.sums f,
            sum-remove f c s.tmp_obj_list (omega (arith, garbage)),
          ));
      positive = λ o h. elim (kept_after o (rw (remove-absent c s.gc_obj_list not_kept) at h)) [
        | inl e ↦ rw (e) (omega (arith, assign-at s.ref_count c (s.ref_count c + 1)))
        | inr e ↦ positive_raised o (d.positive o e)
      ];
      dead = dead_after;
      clean = λ o h. elim (Bool-cases (o == c)) [
        | inl e ↦ let same : o ≡ c = ground arith in rw (same) (assign-at s.mark c 0)
        | inr e ↦ assign-away s.mark c 0 o e ∙ d.clean o h
      ];
      reached = λ o h. elim (kept_after o (rw (remove-absent c s.gc_obj_list not_kept) at h)) [
        | inl e ↦ rw (e) (d.reached_next c (omega (arith, bit_self c)))
        | inr e ↦ d.reached o e
      ];
      reached_next = λ o h. d.reached_next o (omega arith);
      listed_next = λ o h. d.listed_next o (omega arith);
    }

  abbrev is_one : Bool
  is_one = (set_ref_count c (s.ref_count c + 1) s).ref_count c == 1

  was_zero : is_one ≡ true → s.ref_count c ≡ 0
  unfolding set_ref_count
  was_zero e = ground (arith, assign-at s.ref_count c (s.ref_count c + 1))

  was_positive : is_one ≡ false → 0 < s.ref_count c
  unfolding set_ref_count
  was_positive e = ground (arith, assign-at s.ref_count c (s.ref_count c + 1))

  pub incref_child-Scan : Yields (Scan m external objs visited ps) (gc_scan_incref_child c s)
  unfolding gc_scan_incref_child
  incref_child-Scan =
      if_cases (Scan m external objs visited ps) is_one (λ e. kept-Scan (was_zero e))
        (λ e. raised-Scan (was_positive e))
