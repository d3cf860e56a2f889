-- ===== src/Collector/Run.antt =====
-- The loops of `gc_scan`, and both passes together.
use mathlib.Core.List.{append_assoc, append-nil}
use mathlib.Core.Path.{subst}
use quickjs_rs.Base.{
  ℕ, zero, suc, ◌+◌, ◌≤◌, ◌<◌, ◌≡◌, ◌≢◌, sym, ap, ◌∙◌, arith, some, List, [], ◌∷◌, ◌++◌, true, ◌==◌,
  ltb, length, length-append, Bool-cases, inl, inr,
}
use quickjs_rs.Base.Partial.{◌>>=◌}
use quickjs_rs.Collector.Marking.{Objects, children}
use quickjs_rs.Collector.Passes.{
  Gc, assign, set_mark, first, after, gc_scan_incref_child, scan_object, scan_loop,
}
use quickjs_rs.Collector.Sums.{
  bit, bit_self, bit-apart, count, kids, refs, sum-append, summand_le, after-append, length-sum,
}
use quickjs_rs.Collector.Invariants.{
  Yields, Yields-bind, child, Scan, assign-at, assign-away, mark_children-Yields,
}
use quickjs_rs.Collector.Scan.{incref_child-Scan}

module _ (m : Objects) (external : ℕ → ℕ) (objs : List ℕ) (once : (o : ℕ) → count o objs ≤ 1)
    (listed : (o : ℕ) → 0 < external o + refs m o objs → 0 < count o objs)
    (ok : (o : ℕ) → 0 < count o objs → children m o ≡ some (kids m o)) where
  module _ (visited : List ℕ) (p : ℕ) (rest : List ℕ) (s : Gc)
      (d : Scan m external objs visited [] s) (list : s.gc_obj_list ≡ visited ++ (p ∷ rest)) where
    abbrev visited' : List ℕ
    visited' = visited ++ (p ∷ [])

    kept : 0 < count p s.gc_obj_list
    kept = rw (list) (omega (arith, sum-append (bit p) visited (p ∷ rest), bit_self p))

    is_listed : 0 < count p objs
    is_listed = omega (arith, kept, d.sums (bit p))

    next_listed : (o : ℕ) → 0 < count o (kids m p) → 0 < count o objs
    next_listed o h =
        listed o (omega (arith, summand_le (λ q. count o (kids m q)) p objs is_listed, h))

    clean_entered : (o : ℕ) → 0 < count o visited' → assign s.mark p 0 o ≡ 0
    clean_entered o h = elim (Bool-cases (o == p)) [
      | inl e ↦ let same : o ≡ p = ground arith in rw (same) (assign-at s.mark p 0)
      | inr e ↦
          let apart : p ≢ o = ground arith in
          assign-away s.mark p 0 o e
          ∙ d.clean o (omega (arith, sum-append (bit o) visited (p ∷ []), bit-apart o p apart, h))
    ]

    entered : Scan m external objs visited' (kids m p) (set_mark p 0 s)
    unfolding set_mark
    entered = record {
      todo = rest;
      list = list ∙ sym (append_assoc visited (p ∷ []) rest);
      balance =
          λ o. omega (arith, d.balance o, sum-append (λ q. count o (kids m q)) visited (p ∷ []));
      sums = d.sums;
      positive = d.positive;
      dead = d.dead;
      clean = clean_entered;
      reached = d.reached;
      reached_next = λ o h. child (d.reached p kept) h;
      listed_next = next_listed;
    }

    object-Scan : Yields (Scan m external objs visited' []) (scan_object m p s)
    unfolding scan_object
    object-Scan =
        let live : ltb 0 (s.ref_count p) ≡ true = ground (arith, d.positive p kept) in
        rw (live) (
          mark_children-Yields m p (Scan m external objs visited') gc_scan_incref_child
            (ok p is_listed) (λ c ps s d. incref_child-Scan m external objs visited' once c ps s d)
            (set_mark p 0 s) entered)

    -- The next node after the body.
    next_after :
        (s' : Gc) (d' : Scan m external objs visited' [] s')
        → after p s'.gc_obj_list ≡ some (first d'.todo)
    next_after s' d' =
        rw (d'.list, append_assoc visited (p ∷ []) d'.todo)
          (after-append p visited d'.todo (
            omega (
              arith,
              sum-append (bit p) visited (p ∷ rest),
              bit_self p,
              once p,
              d.sums (bit p),
              ap (count p) list,
            )))

  abbrev pub Scanned : Gc → Type 0
  Scanned s = Scan m external objs s.gc_obj_list [] s

  pub loop-Scan :
      (left : ℕ) (visited rest : List ℕ) (s : Gc)
      → length objs ≤ left + length visited
      → Scan m external objs visited [] s
      → s.gc_obj_list ≡ visited ++ rest
      → Yields Scanned (scan_loop left m (first rest) s)
  unfolding scan_loop first
  loop-Scan left visited [] s enough d list =
      subst (λ l. Scan m external objs l [] s) (sym (list ∙ append-nil visited)) d
  loop-Scan zero visited (p ∷ rest) s enough d list = absurd (
      omega (
        arith,
        length-sum objs,
        d.sums (λ x. 1),
        length-sum s.gc_obj_list,
        ap length list,
        length-append visited (p ∷ rest),
      ))
  loop-Scan (suc left) visited (p ∷ rest) s enough d list =
      Yields-bind (Scan m external objs (visited ++ (p ∷ [])) []) Scanned (scan_object m p s)
        (λ s. after p s.gc_obj_list >>= λ el. scan_loop left m el s)
        (object-Scan visited p rest s d list)
        (λ s' d'. rw (next_after visited p rest s d list s' d') (
          loop-Scan left (visited ++ (p ∷ [])) d'.todo s'
            (omega (arith, length-append visited (p ∷ []))) d' d'.list))
