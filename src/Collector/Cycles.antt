-- ===== src/Collector/Cycles.antt =====
-- Both passes together find the objects that nothing outside of the heap leads to.
use mathlib.Core.List.{append-nil}
use quickjs_rs.Base.{ℕ, ◌+◌, ◌<◌, ◌≡◌, refl, arith, List, [], ◌↔◌, length, inl, inr}
use quickjs_rs.Collector.Marking.{Objects}
use quickjs_rs.Collector.Passes.{
  Gc, first, scan_loop, restore_loop, gc_decref, gc_scan, find_cycles,
}
use quickjs_rs.Collector.Sums.{bit, count, kids, refs, zero_or_positive, summand_le, length-sum}
use quickjs_rs.Collector.Invariants.{
  Yields, Yields-bind, Yields-mono, WellCounted, Reach, root, child, Decref, Scan,
}
use quickjs_rs.Collector.Parting.{gc_decref-Decref}
use quickjs_rs.Collector.Run.{Scanned, loop-Scan}
use quickjs_rs.Collector.Restore.{restore_loop-Restoring}

-- What the passes leave: all counts as before, the objects that are reached in one list with their
-- marks reset, and the others in the other.
pub record Found (m : Objects) (external : ℕ → ℕ) (s s' : Gc) : Type 0 where
  pub restored : (o : ℕ) → s'.ref_count o ≡ s.ref_count o
  pub kept : (o : ℕ) → (0 < count o s'.gc_obj_list) ↔ Reach m external o
  pub parted : (o : ℕ) → count o s'.gc_obj_list + count o s'.tmp_obj_list ≡ count o s.gc_obj_list
  pub reset : (o : ℕ) → Reach m external o → s'.mark o ≡ 0

module _ (m : Objects) (external : ℕ → ℕ) (s : Gc) (w : WellCounted m external s) where
  abbrev objs : List ℕ
  objs = s.gc_obj_list

  listed : (o : ℕ) → 0 < external o + refs m o objs → 0 < count o objs
  listed o h = w.listed o (omega (arith, w.counted o))

  -- Where the scan is complete, the objects that are kept are closed under references.
  has_count :
      (s' : Gc)
      → Scanned m external objs w.distinct listed w.markable s'
      → (o : ℕ) → 0 < external o + refs m o s'.gc_obj_list
      → 0 < count o s'.gc_obj_list
  has_count s' d o h = elim (zero_or_positive (count o s'.tmp_obj_list)) [
    | inl e ↦ omega (arith, e, d.sums (bit o), is_listed)
    | inr e ↦ absurd (omega (arith, d.dead o e, d.balance o, h))
  ]
    where
      is_listed : 0 < count o objs
      is_listed = listed o (omega (arith, d.sums (λ q. count o (kids m q)), h))

  kept_reached :
      (s' : Gc)
      → Scanned m external objs w.distinct listed w.markable s'
      → (o : ℕ) → Reach m external o
      → 0 < count o s'.gc_obj_list
  kept_reached s' d o (root h) = has_count s' d o (omega (arith, h))
  kept_reached s' d o (child {p = p} r h) = has_count s' d o (
      omega
        (arith, h, summand_le (λ q. count o (kids m q)) p s'.gc_obj_list (kept_reached s' d p r)))

  -- Where the first pass ends the second one starts: each count is that from outside.
  started : (s1 : Gc) → Decref m s.ref_count objs objs [] [] [] s1 → Scan m external objs [] [] s1
  started s1 d = record {
    todo = s1.gc_obj_list;
    list = refl;
    balance = λ o. omega (arith, d.balance o, w.counted o);
    sums = λ f. rw (d.list, append-nil d.seen) (d.sums f);
    positive = λ o h.
        let seen : 0 < count o d.seen = rw (d.list, append-nil d.seen) at h in
        omega (arith, d.positive o seen);
    dead = d.dead;
    clean = λ o h. absurd (omega arith);
    reached = λ o h.
        let seen : 0 < count o d.seen = rw (d.list, append-nil d.seen) at h in
        root (omega (arith, d.positive o seen, d.balance o, w.counted o));
    reached_next = λ o h. absurd (omega arith);
    listed_next = λ o h. absurd (omega arith);
  }

  finished :
      (s2 : Gc)
      → Scanned m external objs w.distinct listed w.markable s2
      → Yields (Found m external s) (restore_loop m s2.tmp_obj_list s2)
  finished s2 d =
      Yields-mono (restore_loop m s2.tmp_obj_list s2)
        (restore_loop-Restoring m s2 s.ref_count s2.tmp_obj_list s2
          (λ o h. w.markable o (omega (arith, d.sums (bit o))))
          record {
            balance =
                λ o. omega (arith, d.balance o, w.counted o, d.sums (λ q. count o (kids m q)));
            gc_same = refl;
            tmp_same = refl;
            mark_same = refl;
          })
        (λ s' r. record {
          restored = λ o. omega (arith, r.balance o);
          kept = λ o. rw (r.gc_same) (d.reached o, kept_reached s2 d o);
          parted = λ o. rw (r.gc_same, r.tmp_same) (d.sums (bit o));
          reset = λ o h. rw (r.mark_same) (d.clean o (kept_reached s2 d o h));
        })

  gc_scan-Found :
      (s1 : Gc)
      → Decref m s.ref_count objs objs [] [] [] s1
      → Yields (Found m external s) (gc_scan m s1)
  unfolding gc_scan
  gc_scan-Found s1 d =
      Yields-bind (Scanned m external objs w.distinct listed w.markable) (Found m external s)
        (scan_loop (length s1.gc_obj_list + length s1.tmp_obj_list) m (first s1.gc_obj_list) s1)
        (λ s. restore_loop m s.tmp_obj_list s)
        (loop-Scan m external objs w.distinct listed w.markable
          (length s1.gc_obj_list + length s1.tmp_obj_list) [] s1.gc_obj_list s1
          (omega (
            arith,
            length-sum objs,
            (started s1 d).sums (λ x. 1),
            length-sum s1.gc_obj_list,
            length-sum s1.tmp_obj_list,
          ))
          (started s1 d) refl)
        finished

-- From a heap whose counts are right, `gc_decref` and `gc_scan` fail no assertion and end, with all
-- counts as before; the objects left in `gc_obj_list` are those that references lead to from outside
-- of the heap, with their marks reset, and `tmp_obj_list` has exactly the others of the list.
pub find_cycles-Found :
    (m : Objects) (external : ℕ → ℕ) (s : Gc)
    → WellCounted m external s
    → Yields (Found m external s) (find_cycles m s)
unfolding find_cycles
find_cycles-Found m external s w =
    Yields-bind (Decref m s.ref_count s.gc_obj_list s.gc_obj_list [] [] []) (Found m external s)
      (gc_decref m s) (gc_scan m) (gc_decref-Decref m external s w) (gc_scan-Found m external s w)
