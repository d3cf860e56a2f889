-- ===== src/Collector/Parting.antt =====
-- The loop of `gc_decref` over all objects, and the two lists that it leaves.
use mathlib.Core.List.{append_assoc, append-nil}
use mathlib.Core.Path.{subst}
use quickjs_rs.Base.{
  ℕ, zero, suc, ◌+◌, ◌≤◌, ◌<◌, ◌≡◌, ◌≢◌, refl, sym, ◌∙◌, arith, some, List, [], ◌∷◌, ◌++◌, true,
  ◌==◌, length, Bool-cases, inl, inr, if_cases,
}
use quickjs_rs.Collector.Marking.{Objects, children, mark_children}
use quickjs_rs.Collector.Passes.{
  Gc, assign, set_mark, first, after, gc_decref_child, decref_marked, decref_object, decref_loop,
  gc_decref,
}
use quickjs_rs.Collector.Sums.{
  bit, bit_self, bit-apart, count, kids, refs, zero_or_positive, sum-append, after-append,
}
use quickjs_rs.Collector.Invariants.{
  Yields, Yields-bind, WellCounted, Decref, assign-at, assign-away, mark_children-Yields,
}
use quickjs_rs.Collector.Decref.{moved, stays, decref_child-Decref}

module _ (m : Objects) (rc0 : ℕ → ℕ) (visited : List ℕ) (p : ℕ) (rest : List ℕ) where
  abbrev visited' : List ℕ
  visited' = visited ++ (p ∷ [])

  module _ (once : (o : ℕ) → count o visited + count o (p ∷ rest) ≤ 1)
      (enough : (o : ℕ) → refs m o visited' ≤ rc0 o) where
    -- All the references of the object are pending.
    entered :
        (s : Gc)
        → Decref m rc0 visited visited (p ∷ rest) [] [] s
        → Decref m rc0 visited' visited (p ∷ rest) (kids m p) [] s
    entered s d = record {
      seen = d.seen;
      list = d.list;
      balance =
          λ o. omega (arith, d.balance o, sum-append (λ q. count o (kids m q)) visited (p ∷ []));
      marks = d.marks;
      sums = d.sums;
      positive = d.positive;
      dead = d.dead;
    }

    not_visited : count p visited ≡ 0
    not_visited = omega (arith, once p, bit_self p)

    marks_passed :
        (s : Gc)
        → Decref m rc0 visited' visited (p ∷ rest) [] [] s
        → (o : ℕ) → assign s.mark p 1 o ≡ count o visited'
    marks_passed s d o = elim (Bool-cases (o == p)) [
      | inl e ↦
          let same : p ≡ o = ground arith in
          rw (sym same) (
            omega (
              arith,
              assign-at s.mark p 1,
              not_visited,
              bit_self p,
              sum-append (bit p) visited (p ∷ []),
            ))
      | inr e ↦
          let apart : p ≢ o = ground arith in
          omega (
            arith,
            assign-away s.mark p 1 o e,
            d.marks o,
            bit-apart o p apart,
            sum-append (bit o) visited (p ∷ []),
          )
    ]

    -- The object is marked and passed.
    passed :
        (s : Gc)
        → Decref m rc0 visited' visited (p ∷ rest) [] [] s
        → Decref m rc0 visited' visited' rest [] (p ∷ []) (set_mark p 1 s)
    unfolding set_mark
    passed s d = record {
      seen = d.seen ++ (p ∷ []);
      list = d.list ∙ sym (append_assoc d.seen (p ∷ []) rest);
      balance = d.balance;
      marks = marks_passed s d;
      sums =
          λ f. omega (arith, d.sums f, sum-append f d.seen (p ∷ []), sum-append f visited (p ∷ []));
      positive = λ o h. elim (zero_or_positive (count o d.seen)) [
        | inl e ↦ omega (arith, e, sum-append (bit o) d.seen (p ∷ []), h)
        | inr e ↦ omega (arith, d.positive o e)
      ];
      dead = d.dead;
    }

    passed_member :
        (s : Gc) (d : Decref m rc0 visited' visited (p ∷ rest) [] [] s)
        → 0 < count p (passed s d).seen
    unfolding set_mark
    passed_member s d = omega (
      arith,
      not_visited,
      d.sums (bit p),
      (passed s d).sums (bit p),
      bit_self p,
      sum-append (bit p) visited (p ∷ []),
    )

    once' : count p visited' ≤ 1
    once' = omega (arith, once p, sum-append (bit p) visited (p ∷ []))

    marked-Decref :
        (s : Gc)
        → Decref m rc0 visited' visited (p ∷ rest) [] [] s
        → Decref m rc0 visited' visited' rest [] [] (decref_marked p s)
    unfolding decref_marked
    marked-Decref s d =
        if_cases (Decref m rc0 visited' visited' rest [] []) ((set_mark p 1 s).ref_count p == 0)
          (λ e.
            moved m rc0 visited' visited' rest [] p (set_mark p 1 s) (passed s d)
              (passed_member s d) once' (ground arith))
          (λ e.
            stays m rc0 visited' visited' rest [] p (set_mark p 1 s) (passed s d)
              (passed_member s d) once' (ground arith))

    object-Decref :
        (s : Gc)
        → children m p ≡ some (kids m p)
        → Decref m rc0 visited visited (p ∷ rest) [] [] s
        → Yields (Decref m rc0 visited' visited' rest [] []) (decref_object m p s)
    unfolding decref_object
    object-Decref s ok d =
        let clear : (s.mark p == 0) ≡ true = ground (arith, d.marks p, not_visited) in
        rw (clear) (
          Yields-bind (Decref m rc0 visited' visited (p ∷ rest) [] [])
            (Decref m rc0 visited' visited' rest [] []) (mark_children m p gc_decref_child s)
            (λ s. some (decref_marked p s))
            (mark_children-Yields m p (λ ps. Decref m rc0 visited' visited (p ∷ rest) ps [])
              gc_decref_child ok
              (λ c ps s d.
                decref_child-Decref m rc0 visited' visited (p ∷ rest) c ps s d (enough c)
                  (omega (arith, once c)))
              s (entered s d))
            marked-Decref)

    next_after :
        (s : Gc)
        → Decref m rc0 visited visited (p ∷ rest) [] [] s
        → after p s.gc_obj_list ≡ some (first rest)
    next_after s d =
        rw (d.list) (after-append p d.seen rest (omega (arith, d.sums (bit p), not_visited)))

module _ (m : Objects) (rc0 : ℕ → ℕ) where
  loop-Decref :
      (left : ℕ) (visited rest : List ℕ) (s : Gc)
      → length rest ≤ left
      → ((o : ℕ) → count o visited + count o rest ≤ 1)
      → ((o : ℕ) → refs m o visited + refs m o rest ≤ rc0 o)
      → ((o : ℕ) → 0 < count o rest → children m o ≡ some (kids m o))
      → Decref m rc0 visited visited rest [] [] s
      → Yields
          (Decref m rc0 (visited ++ rest) (visited ++ rest) [] [] [])
          (decref_loop left m (first rest) s)
  unfolding decref_loop first
  loop-Decref left visited [] s fits once enough ok d = rw (append-nil visited) d
  loop-Decref zero visited (p ∷ rest) s fits once enough ok d = absurd (omega arith)
  loop-Decref (suc left) visited (p ∷ rest) s fits once enough ok d =
      let once' : (o : ℕ) → count o (visited ++ (p ∷ [])) + count o rest ≤ 1 =
        (λ o. omega (arith, once o, sum-append (bit o) visited (p ∷ []))) in
      let enough' : (o : ℕ) → refs m o (visited ++ (p ∷ [])) + refs m o rest ≤ rc0 o =
        (λ o. omega (arith, enough o, sum-append (λ q. count o (kids m q)) visited (p ∷ []))) in
      let below : (o : ℕ) → refs m o (visited ++ (p ∷ [])) ≤ rc0 o =
        (λ o. omega (arith, enough' o)) in
      rw (next_after m rc0 visited p rest once below s d) (
        Yields-bind (Decref m rc0 (visited ++ (p ∷ [])) (visited ++ (p ∷ [])) rest [] [])
          (Decref m rc0 (visited ++ (p ∷ rest)) (visited ++ (p ∷ rest)) [] [] [])
          (decref_object m p s) (decref_loop left m (first rest))
          (object-Decref m rc0 visited p rest once below s (ok p (omega (arith, bit_self p))) d)
          (λ s' d'.
            subst (λ l. Yields (Decref m rc0 l l [] [] []) (decref_loop left m (first rest) s'))
              (append_assoc visited (p ∷ []) rest)
              (loop-Decref left (visited ++ (p ∷ [])) rest s' (omega arith) once' enough'
                (λ o h. ok o (omega arith)) d')))

-- After `gc_decref` each count is the number of references from outside, and the objects with one
-- are those that stay in `gc_obj_list`.
pub gc_decref-Decref :
    (m : Objects) (external : ℕ → ℕ) (s : Gc)
    → WellCounted m external s
    → Yields (Decref m s.ref_count s.gc_obj_list s.gc_obj_list [] [] []) (gc_decref m s)
unfolding gc_decref
gc_decref-Decref m external s w =
    loop-Decref m s.ref_count (length s.gc_obj_list) [] s.gc_obj_list
      (record s { tmp_obj_list = [] }) (omega arith) (λ o. omega (arith, w.distinct o))
      (λ o. omega (arith, w.counted o)) w.markable
      record {
        seen = [];
        list = refl;
        balance = λ o. omega arith;
        marks = w.unmarked;
        sums = λ f. omega arith;
        positive = λ o h. absurd (omega arith);
        dead = λ o h. absurd (omega arith);
      }
