-- ===== src/Collector/Examples.antt =====
-- A heap with a garbage cycle: object 1 is held from outside, objects 3 and 4 refer to each other,
-- and all three have the shape 2.
use quickjs_rs.Base.{
  ℕ, zero, suc, ◌<◌, ◌≡◌, refl, arith, Option, none, some, List, [], ◌∷◌, false, ◌==◌,
  if◌then◌else◌,
}
use quickjs_rs.Collector.Marking.{
  object, immediate, normal, getset, Payload, js_object, shape, unknown, Objects, children,
  mark_children, mark_each, mark_properties, mark_slot, mark_class, mark_value, mark_opt,
}
use quickjs_rs.Collector.Passes.{
  Gc, find_cycles, gc_decref, gc_scan, decref_loop, scan_loop, restore_loop, decref_object,
  scan_object, gc_decref_child, gc_scan_incref_child, gc_scan_incref_child2, decref_marked,
  move_to_tmp, move_to_gc, unlink, remove, set_mark, set_ref_count, assign, after, first,
}
use quickjs_rs.Collector.Sums.{count, kids}
use quickjs_rs.Collector.Invariants.{Yields, WellCounted}
use quickjs_rs.Collector.Cycles.{Found, find_cycles-Found}

abbrev payload_of : ℕ → Payload
payload_of (suc zero) = js_object 2 ((record { atom = 7; slot = normal (immediate 5) }) ∷ []) 1
payload_of (suc (suc zero)) = shape none
payload_of (suc (suc (suc zero))) =
    js_object 2 ((record { atom = 7; slot = normal (object 4) }) ∷ []) 1
payload_of (suc (suc (suc (suc zero)))) =
    js_object 2 ((record { atom = 8; slot = getset (some 3) none }) ∷ []) 1
payload_of o = unknown o

abbrev heap : Objects
heap = record { payload = payload_of; is_detached = λ o. false; class_gc_mark = λ c. none }

abbrev held : ℕ → ℕ
held o = if o == 1 then 1 else 0

abbrev counts : ℕ → ℕ
counts o = if o == 2 then 3 else if o == 1 then 1 else if o == 3 then 1 else if o == 4 then 1 else 0

abbrev runtime : Gc
runtime = record {
  ref_count = counts;
  mark = λ o. 0;
  gc_obj_list = 1 ∷ 2 ∷ 3 ∷ 4 ∷ [];
  tmp_obj_list = [];
}

runtime-WellCounted : WellCounted heap held runtime
unfolding children mark_properties mark_slot mark_class mark_value mark_opt
runtime-WellCounted = record {
  distinct = λ o. ground arith;
  counted = λ o. ground arith;
  listed = λ o h. ground arith;
  unmarked = λ o. refl;
  markable = markable;
}
  where
    markable : (o : ℕ) → 0 < count o (1 ∷ 2 ∷ 3 ∷ 4 ∷ []) → children heap o ≡ some (kids heap o)
    markable (suc zero) h = refl
    markable (suc (suc zero)) h = refl
    markable (suc (suc (suc zero))) h = refl
    markable (suc (suc (suc (suc zero)))) h = refl
    markable zero h = absurd (omega arith)
    markable (suc (suc (suc (suc (suc o))))) h =
        absurd (let none_left : 0 < 0 = ground arith in omega arith)

find_cycles-Found_example : Yields (Found heap held runtime) (find_cycles heap runtime)
find_cycles-Found_example = find_cycles-Found heap held runtime runtime-WellCounted

abbrev lists : Option Gc → Option (List ℕ × List ℕ)
lists none = none
lists (some s) = some (s.gc_obj_list, s.tmp_obj_list)

cycle_found : lists (find_cycles heap runtime) ≡ some (1 ∷ 2 ∷ [], 3 ∷ 4 ∷ [])
unfolding find_cycles gc_decref gc_scan decref_loop scan_loop restore_loop decref_object scan_object
    mark_children mark_each children mark_properties mark_slot mark_class mark_value mark_opt
    gc_decref_child gc_scan_incref_child gc_scan_incref_child2 decref_marked move_to_tmp move_to_gc
    unlink remove set_mark set_ref_count assign after first
cycle_found = refl
