-- ===== src/CharRange/Examples.antt =====
-- Runs on small ranges, and the theorems at them.
use quickjs_rs.Base.{ℕ, ◌≡◌, refl, arith, [], ◌∷◌, Bool, true, ◌&&◌, ◌||◌, leb}
use quickjs_rs.CharRange.{
  CharRange, union, inter, exclusive, cr_op, cr_union1, cr_union_interval, cr_invert, cr_compress,
  compress_loop, join_end, is_in, is_odd, pull, op_loop, cr_add_point, put_points, cr_realloc,
  compress_done, cr_init,
}
use quickjs_rs.CharRange.Meaning.{contains}
use quickjs_rs.CharRange.Laws.{Operated, IsCanonical, cr_op-Operated, cr_union_interval_codes}
use quickjs_rs.CharRange.Invert.{Inverted, cr_invert-Inverted, cr_invert_twice}

-- An allocator that always has a block.
abbrev always : Unit {0} → ℕ → Unit {0} × Bool
always h n = (tt, true)

abbrev empty : CharRange
empty = record { points = []; size = 0 }

abbrev letters : CharRange
letters = record { points = 65 ∷ 91 ∷ 97 ∷ 123 ∷ []; size = 4 }

op_runs :
    ((cr_op always tt empty (65 ∷ 91 ∷ []) (91 ∷ 95 ∷ []) union).1.points ≡ 65 ∷ 95 ∷ [])
    × ((cr_op always tt empty (65 ∷ 91 ∷ []) (70 ∷ 99 ∷ []) inter).1.points ≡ 70 ∷ 91 ∷ [])
    × ((cr_op always tt empty (65 ∷ 91 ∷ []) (70 ∷ 91 ∷ []) exclusive).1.points ≡ 65 ∷ 70 ∷ [])
unfolding cr_op op_loop pull is_in is_odd cr_add_point put_points cr_realloc compress_done
    cr_compress compress_loop join_end
op_runs = (refl, refl, refl)

compress_run :
    (cr_compress (record { points = 1 ∷ 1 ∷ 2 ∷ 3 ∷ 3 ∷ 3 ∷ 3 ∷ 5 ∷ 7 ∷ 9 ∷ []; size = 10 })).points
    ≡ 2 ∷ 5 ∷ 7 ∷ 9 ∷ []
unfolding cr_compress compress_loop join_end
compress_run = refl

cr_op-Operated_example :
    Operated always union
      (65 ∷ 91 ∷ [])
      (91 ∷ 95 ∷ [])
      (cr_op always tt empty (65 ∷ 91 ∷ []) (91 ∷ 95 ∷ []) union)
cr_op-Operated_example =
    cr_op-Operated always union tt empty (65 ∷ 91 ∷ []) (91 ∷ 95 ∷ []) refl (omega arith)
      (omega arith)

letters-IsCanonical : IsCanonical letters.points
letters-IsCanonical = omega arith

union_returns : (cr_union_interval always (λ h. h) tt letters 91 96).2 ≡ true
unfolding cr_union_interval cr_union1 cr_init cr_op op_loop pull is_in is_odd cr_add_point
    put_points cr_realloc compress_done
union_returns = refl

cr_union_interval_codes_example :
    IsCanonical (cr_union_interval always (λ h. h) tt letters 91 96).1.points
    × ((c : ℕ)
        → contains (cr_union_interval always (λ h. h) tt letters 91 96).1.points c
          ≡ contains letters.points c || (leb 91 c && leb c 96))
cr_union_interval_codes_example =
    cr_union_interval_codes always (λ h. h) tt letters 91 96 (omega arith) (omega arith)
      (omega arith) union_returns

cr_invert-Inverted_example : Inverted always letters.points (cr_invert always tt letters)
cr_invert-Inverted_example = cr_invert-Inverted always tt letters (omega arith) (omega arith)

cr_invert_twice_example :
    (cr_invert always (cr_invert always tt letters).0 (cr_invert always tt letters).1).1.points
    ≡ 65 ∷ 91 ∷ 97 ∷ 123 ∷ []
cr_invert_twice_example =
    cr_invert_twice always tt letters letters-IsCanonical (omega arith) (λ h n. refl)
