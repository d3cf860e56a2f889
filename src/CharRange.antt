-- ===== src/CharRange.antt =====
-- Sets of code points of libquickjs-sys/embed/quickjs/libunicode.c and libunicode.h (`CharRange`):
-- sorted interval ends, even many. `points` are the first `len` entries of the source's array,
-- `size` is its capacity. The allocator is a parameter: `realloc` says, from the state of the
-- memory, whether a block for so many points is had; such a block keeps the points. Lengths and
-- capacities are within `int`.
pub mod Meaning
pub mod Merge
pub mod OpLoop
pub mod Compress
pub mod Squeeze
pub mod Unique
pub mod Laws
pub mod Invert
pub mod Examples
use quickjs_rs.Base.{ℕ, zero, suc, ◌+◌, ◌-◌, ◌*◌, ◌/◌, ◌%◌, ◌^◌, ◌≡◌, max, ltb, leb, ◌==◌, u32}
use quickjs_rs.Base.{if◌then◌else◌, List, [], ◌∷◌, ◌++◌, Bool, true, false, not, ◌&&◌, ◌||◌, xor}
use quickjs_rs.Base.{length, take, set, get_or}

pub record CharRange : Type 0 where
  pub points : List ℕ
  pub size : ℕ

-- `CharRangeOpEnum`
pub data CharRangeOp : Type 0 where
  union inter exclusive : CharRangeOp

-- `is_in`, from `a_idx & 1` and `b_idx & 1`.
pub is_in : CharRangeOp → Bool → Bool → Bool
is_in union a b = a || b
is_in inter a b = a && b
is_in exclusive a b = xor a b

-- `n & 1`
pub is_odd : List ℕ → Bool
is_odd l = length l % 2 == 1

pub cr_init : CharRange
cr_init = record { points = []; size = 0 }

-- The inner loop of `cr_compress`: the last `j` of a row of intervals that touch.
pub join_end : ℕ → List ℕ → ℕ → ℕ → ℕ
join_end zero pt len j = j
join_end (suc fuel) pt len j =
    let further = join_end fuel pt len (j + 2) in
    if ltb (j + 3) len && (get_or pt (j + 1) 0 == get_or pt (j + 2) 0) then further else j

-- The outer loop, in place: reads from `i` on, writes below `k`. It returns the array and `k`.
pub compress_loop : ℕ → List ℕ → ℕ → ℕ → ℕ → List ℕ × ℕ
compress_loop zero pt len i k = (pt, k)
compress_loop (suc fuel) pt len i k =
    let after_empty = compress_loop fuel pt len (i + 2) k in
    let j = join_end len pt len i in
    let copied = set (set pt k (get_or pt i 0)) (k + 1) (get_or pt (j + 1) 0) in
    let after_copy = compress_loop fuel copied len (j + 2) (k + 2) in
    if ltb (i + 1) len
    then (if get_or pt i 0 == get_or pt (i + 1) 0 then after_empty else after_copy)
    else (pt, k)

-- Each round of a loop raises its index, so `len` rounds are enough.
pub cr_compress : CharRange → CharRange
cr_compress cr =
    let len = length cr.points in
    let (pt, k) = compress_loop len cr.points len 0 0 in record cr { points = take k pt }

-- The next point of two sorted arrays, from their indices on: the point, and what is left of each.
-- A point that both have is taken from both.
pub record NextPoint : Type 0 where
  pub v : ℕ
  pub a : List ℕ
  pub b : List ℕ
  pub from_a : Bool
  pub from_b : Bool

pub data Pull : Type 0 where
  finished : Pull
  point : NextPoint → Pull

pub pull : List ℕ → List ℕ → Pull
pull [] [] = finished
pull (x ∷ a) [] = point (record { v = x; a = a; b = []; from_a = true; from_b = false })
pull [] (y ∷ b) = point (record { v = y; a = []; b = b; from_a = false; from_b = true })
pull (x ∷ a) (y ∷ b) =
    if ltb x y
    then point (record { v = x; a = a; b = y ∷ b; from_a = true; from_b = false })
    else if x == y
    then point (record { v = x; a = a; b = b; from_a = true; from_b = true })
    else point (record { v = y; a = x ∷ a; b = b; from_a = false; from_b = true })

module _ {H : Type 0} (realloc : H → ℕ → H × Bool) where
  -- The memory, the range, and whether the call returned 0.
  abbrev pub Done : Type 0
  Done = H × CharRange × Bool

  pub cr_realloc : H → CharRange → ℕ → Done
  cr_realloc h cr size =
      let new_size = max size (cr.size * 3 / 2) in
      let (h', had) = realloc h new_size in
      if ltb cr.size size
      then (if had then (h', record cr { size = new_size }, true) else (h', cr, false))
      else (h, cr, true)

  -- `cr->points[cr->len++] = v`, after a growth that may have failed.
  pub put_points : Done → List ℕ → Done
  put_points (h, cr, true) vs = (h, record cr { points = cr.points ++ vs }, true)
  put_points (h, cr, false) vs = (h, cr, false)

  pub cr_add_point : H → CharRange → ℕ → Done
  cr_add_point h cr v =
      put_points
        (if leb cr.size (length cr.points)
          then cr_realloc h cr (length cr.points + 1)
          else (h, cr, true))
        (v ∷ [])

  pub cr_add_interval : H → CharRange → ℕ → ℕ → Done
  cr_add_interval h cr c1 c2 =
      put_points
        (if ltb cr.size (length cr.points + 2)
          then cr_realloc h cr (length cr.points + 2)
          else (h, cr, true))
        (c1 ∷ c2 ∷ [])

  -- `cr_copy` of the points of another range.
  pub copy_points : Done → List ℕ → Done
  copy_points (h, cr, true) vs = (h, record cr { points = vs }, true)
  copy_points (h, cr, false) vs = (h, cr, false)

  pub cr_copy : H → CharRange → CharRange → Done
  cr_copy h cr cr1 = copy_points (cr_realloc h cr (length cr1.points)) cr1.points

  -- The loop of `cr_op`; `a_odd` is `a_idx & 1`. A point is added if the status changes.
  pub op_loop : ℕ → CharRangeOp → H → CharRange → List ℕ → List ℕ → Bool → Bool → Done
  op_loop zero op h cr a b a_odd b_odd = (h, cr, true)
  op_loop (suc fuel) op h cr a b a_odd b_odd = elim (pull a b) [
    | finished ↦ (h, cr, true)
    | point p ↦
        let a_odd' = xor a_odd p.from_a in
        let b_odd' = xor b_odd p.from_b in
        let r =
          if xor (is_in op a_odd' b_odd') (is_odd cr.points)
          then cr_add_point h cr p.v
          else (h, cr, true) in
        elim r.2 [
          | true ↦ op_loop fuel op r.0 r.1 p.a p.b a_odd' b_odd'
          | false ↦ (r.0, r.1, false)
        ]
  ]

  -- A failed loop returns -1 before `cr_compress`.
  pub compress_done : Done → Done
  compress_done (h, cr, true) = (h, cr_compress cr, true)
  compress_done (h, cr, false) = (h, cr, false)

  -- Each round takes a point, so the fuel is enough.
  pub cr_op : H → CharRange → List ℕ → List ℕ → CharRangeOp → Done
  cr_op h cr a_pt b_pt op =
      compress_done (op_loop (length a_pt + length b_pt + 1) op h cr a_pt b_pt false false)

  -- `cr_free` of the old points changes the memory alone.
  pub cr_union1 : (H → H) → H → CharRange → List ℕ → Done
  unfolding cr_init
  cr_union1 free h cr b_pt =
      let (h', cr', ret) = cr_op h cr_init cr.points b_pt union in (free h', cr', ret)

  pub cr_union_interval : (H → H) → H → CharRange → ℕ → ℕ → Done
  cr_union_interval free h cr c1 c2 = cr_union1 free h cr (c1 ∷ u32 (c2 + 1) ∷ [])

  pub invert_points : Done → Done
  invert_points (h, cr, true) =
      (h, cr_compress (record cr { points = 0 ∷ cr.points ++ ((2 ^ 32 - 1) ∷ []) }), true)
  invert_points (h, cr, false) = (h, cr, false)

  pub cr_invert : H → CharRange → Done
  cr_invert h cr = invert_points (cr_realloc h cr (length cr.points + 2))
