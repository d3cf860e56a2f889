-- ===== src/Collector/Passes.antt =====
-- `gc_decref`, `gc_scan` and their callbacks, of libquickjs-sys/embed/quickjs/quickjs.c, on the
-- reference counts, the marks and the two lists. A failed assertion, and a step from a node that is
-- in no list, is `none`.
use quickjs_rs.Base.{
  ℕ, zero, suc, ◌+◌, ◌-◌, Option, none, some, List, [], ◌∷◌, ◌++◌, ◌==◌, ltb, ◌&&◌, if◌then◌else◌,
  length,
}
use quickjs_rs.Base.Partial.{◌>>=◌, ◌>>◌, check}
use quickjs_rs.Collector.Marking.{Objects, mark_children}

pub record Gc : Type 0 where
  pub ref_count : ℕ → ℕ
  pub mark : ℕ → ℕ
  pub gc_obj_list : List ℕ
  pub tmp_obj_list : List ℕ

unfoldable pub assign : (ℕ → ℕ) → ℕ → ℕ → ℕ → ℕ
assign field at v x = if x == at then v else field x

unfoldable pub remove : ℕ → List ℕ → List ℕ
remove p [] = []
remove p (x ∷ l) = if x == p then l else x ∷ remove p l

-- `list_del`, from the list that the node is in.
unfoldable pub unlink : ℕ → Gc → Gc
unfolding remove
unlink p s = record s {
  gc_obj_list = remove p s.gc_obj_list;
  tmp_obj_list = remove p s.tmp_obj_list;
}

-- `list_del`, then `list_add_tail` to `tmp_obj_list`
unfoldable pub move_to_tmp : ℕ → Gc → Gc
unfolding unlink
move_to_tmp p s = let s : Gc = unlink p s in record s { tmp_obj_list = s.tmp_obj_list ++ (p ∷ []) }

-- `list_del`, then `list_add_tail` to `gc_obj_list`
unfoldable pub move_to_gc : ℕ → Gc → Gc
unfolding unlink
move_to_gc p s = let s : Gc = unlink p s in record s { gc_obj_list = s.gc_obj_list ++ (p ∷ []) }

unfoldable pub set_ref_count : ℕ → ℕ → Gc → Gc
unfolding assign
set_ref_count p n s = record s { ref_count = assign s.ref_count p n }

unfoldable pub set_mark : ℕ → ℕ → Gc → Gc
unfolding assign
set_mark p n s = record s { mark = assign s.mark p n }

-- The node at the front of a list: none is the list's head, where a loop ends.
unfoldable pub first : List ℕ → Option ℕ
first [] = none
first (x ∷ l) = some x

-- The node after another.
unfoldable pub after : ℕ → List ℕ → Option (Option ℕ)
unfolding first
after p [] = none
after p (x ∷ l) = if x == p then some (first l) else after p l

unfoldable pub gc_decref_child : ℕ → Gc → Option Gc
unfolding set_ref_count move_to_tmp
gc_decref_child p s =
    check (ltb 0 (s.ref_count p))
    >> some (
        let s : Gc = set_ref_count p (s.ref_count p - 1) s in
        if (s.ref_count p == 0) && (s.mark p == 1) then move_to_tmp p s else s)

-- The end of the loop's body.
unfoldable pub decref_marked : ℕ → Gc → Gc
unfolding set_mark move_to_tmp
decref_marked p s = let s : Gc = set_mark p 1 s in if s.ref_count p == 0 then move_to_tmp p s else s

-- The body of the loop over `gc_obj_list`.
unfoldable pub decref_object : Objects → ℕ → Gc → Option Gc
unfolding mark_children gc_decref_child decref_marked
decref_object m p s =
    check (s.mark p == 0) >> (mark_children m p gc_decref_child s >>= λ s. some (decref_marked p s))

-- `list_for_each_safe`: the next node is read before the body.
unfoldable pub decref_loop : ℕ → Objects → Option ℕ → Gc → Option Gc
unfolding after decref_object
decref_loop fuel m none s = some s
decref_loop zero m (some p) s = none
decref_loop (suc left) m (some p) s =
    after p s.gc_obj_list >>= λ el1. decref_object m p s >>= decref_loop left m el1

unfoldable pub gc_decref : Objects → Gc → Option Gc
unfolding decref_loop first
gc_decref m s =
    let s : Gc = record s { tmp_obj_list = [] } in
    decref_loop (length s.gc_obj_list) m (first s.gc_obj_list) s

unfoldable pub gc_scan_incref_child : ℕ → Gc → Option Gc
unfolding set_ref_count set_mark move_to_gc
gc_scan_incref_child p s = some (
    let s : Gc = set_ref_count p (s.ref_count p + 1) s in
    if s.ref_count p == 1 then set_mark p 0 (move_to_gc p s) else s)

unfoldable pub gc_scan_incref_child2 : ℕ → Gc → Option Gc
unfolding set_ref_count
gc_scan_incref_child2 p s = some (set_ref_count p (s.ref_count p + 1) s)

-- The body of the first loop of `gc_scan`.
unfoldable pub scan_object : Objects → ℕ → Gc → Option Gc
unfolding set_mark mark_children gc_scan_incref_child
scan_object m p s =
    check (ltb 0 (s.ref_count p)) >> mark_children m p gc_scan_incref_child (set_mark p 0 s)

-- `list_for_each`: the next node is read after the body, which may have added nodes.
unfoldable pub scan_loop : ℕ → Objects → Option ℕ → Gc → Option Gc
unfolding after scan_object
scan_loop fuel m none s = some s
scan_loop zero m (some p) s = none
scan_loop (suc left) m (some p) s =
    scan_object m p s >>= λ s. after p s.gc_obj_list >>= λ el. scan_loop left m el s

-- The second loop, which changes no list.
unfoldable pub restore_loop : Objects → List ℕ → Gc → Option Gc
unfolding mark_children gc_scan_incref_child2
restore_loop m [] s = some s
restore_loop m (p ∷ ps) s = mark_children m p gc_scan_incref_child2 s >>= restore_loop m ps

-- No more rounds than there are objects.
unfoldable pub gc_scan : Objects → Gc → Option Gc
unfolding scan_loop restore_loop first
gc_scan m s =
    scan_loop (length s.gc_obj_list + length s.tmp_obj_list) m (first s.gc_obj_list) s >>= λ s.
    restore_loop m s.tmp_obj_list s

-- `JS_RunGC` up to `gc_free_cycles`.
unfoldable pub find_cycles : Objects → Gc → Option Gc
unfolding gc_decref gc_scan
find_cycles m s = gc_decref m s >>= gc_scan m
