-- ===== src/Collector/Restore.antt =====
-- The second loop of `gc_scan` puts the other references back.
use quickjs_rs.Base.{
  ℕ, ◌+◌, ◌<◌, ◌≡◌, ◌≢◌, sym, arith, some, List, [], ◌∷◌, ◌==◌, Bool-cases, inl, inr,
}
use quickjs_rs.Collector.Marking.{Objects, children, mark_children}
use quickjs_rs.Collector.Passes.{Gc, set_ref_count, gc_scan_incref_child2, restore_loop}
use quickjs_rs.Collector.Sums.{bit_self, bit-apart, count, kids, refs}
use quickjs_rs.Collector.Invariants.{
  Yields, Yields-bind, assign-at, assign-away, mark_children-Yields,
}

-- The lists and marks are those of `s0`, and the counts grow to `total` by what is pending.
pub record Restoring (s0 : Gc) (total : ℕ → ℕ) (pending : ℕ → ℕ) (s : Gc) : Type 0 where
  pub balance : (o : ℕ) → s.ref_count o + pending o ≡ total o
  pub gc_same : s.gc_obj_list ≡ s0.gc_obj_list
  pub tmp_same : s.tmp_obj_list ≡ s0.tmp_obj_list
  pub mark_same : s.mark ≡ s0.mark

module _ (m : Objects) (s0 : Gc) (total : ℕ → ℕ) where
  -- What the rest of the loop adds after the objects of `ps`.
  abbrev Left : List ℕ → List ℕ → Gc → Type 0
  Left rest ps = Restoring s0 total (λ o. count o ps + refs m o rest)

  incref_child2-Restoring :
      (rest : List ℕ) (c : ℕ) (ps : List ℕ) (s : Gc)
      → Left rest (c ∷ ps) s
      → Yields (Left rest ps) (gc_scan_incref_child2 c s)
  unfolding gc_scan_incref_child2 set_ref_count
  incref_child2-Restoring rest c ps s r = record {
    balance = λ o. elim (Bool-cases (o == c)) [
      | inl e ↦
          let same : c ≡ o = ground arith in
          rw (sym same)
            (omega (arith, assign-at s.ref_count c (s.ref_count c + 1), r.balance c, bit_self c))
      | inr e ↦
          let apart : c ≢ o = ground arith in
          omega (
            arith,
            assign-away s.ref_count c (s.ref_count c + 1) o e,
            r.balance o,
            bit-apart o c apart,
          )
    ];
    gc_same = r.gc_same;
    tmp_same = r.tmp_same;
    mark_same = r.mark_same;
  }

  pub restore_loop-Restoring :
      (rest : List ℕ) (s : Gc)
      → ((o : ℕ) → 0 < count o rest → children m o ≡ some (kids m o))
      → Restoring s0 total (λ o. refs m o rest) s
      → Yields (Restoring s0 total (λ o. 0)) (restore_loop m rest s)
  unfolding restore_loop
  restore_loop-Restoring [] s ok r = r
  restore_loop-Restoring (p ∷ rest) s ok r =
      Yields-bind (Left rest []) (Restoring s0 total (λ o. 0))
        (mark_children m p gc_scan_incref_child2 s) (restore_loop m rest)
        (mark_children-Yields m p (Left rest) gc_scan_incref_child2
          (ok p (omega (arith, bit_self p))) (λ c ps s r. incref_child2-Restoring rest c ps s r) s
          r)
        (λ s' r'.
          restore_loop-Restoring rest s' (λ o h. ok o (omega arith))
            record {
              balance = λ o. omega (arith, r'.balance o);
              gc_same = r'.gc_same;
              tmp_same = r'.tmp_same;
              mark_same = r'.mark_same;
            })
