-- ===== src/Regexp/Ranges/Class.antt =====
-- `re_emit_range` as a whole, and its instruction in the interpreter.
use native.Mathlib.Nat.{suc-mul}
use quickjs_rs.Base.{
  ℕ, zero, suc, ◌+◌, ◌*◌, ◌/◌, ◌^◌, ◌≤◌, ◌<◌, ◌≡◌, refl, ap, ◌∙◌, arith, Option, List, [], ◌∷◌,
  Bool, true, false, leb, ◌==◌, if◌then◌else◌, length, length-append, All, if_cases,
}
use quickjs_rs.Base.Partial.{bind_some}
use quickjs_rs.CharRange.Meaning.{IsEven}
use quickjs_rs.CharRange.Laws.{IsCanonical}
use quickjs_rs.DynBuf.{DynBuf}
use quickjs_rs.DynBuf.Memory.{Allocator}
use quickjs_rs.DynBuf.Run.{joined, total, puts}
use quickjs_rs.Regexp.Emit.{uint32_max, last_code16, highest, emit_intervals, re_emit_range}
use quickjs_rs.Regexp.Ranges.Bytes.{blocks, length-le_bytes}
use quickjs_rs.Regexp.Ranges.Runs.{
  with_flag, last_code32, ranges16-puts, ranges32-puts, char32-puts,
}
use quickjs_rs.Regexp.Ranges.Ends.{point_of, high_point}
use quickjs_rs.Regexp.Ranges.Compiled.{pieces16, pieces32, pieces_none}

-- The pieces that `re_emit_range` appends.
abbrev pub class_pieces : List ℕ → List (List ℕ)
class_pieces [] = pieces_none
class_pieces (p ∷ ps) =
    if leb (point_of (p ∷ ps)) 0xffff
    then pieces16 (p ∷ ps) (length (p ∷ ps) / 2)
    else pieces32 (p ∷ ps) (length (p ∷ ps) / 2)

pub half : (ps : List ℕ) → IsEven ps → length ps ≡ 2 * (length ps / 2)
half [] e = refl
half (p ∷ []) e = absurd e
half (p ∷ q ∷ ps) e = omega (arith, half ps e)

-- What the compiler guarantees of the points, and fewer intervals than it refuses.
pub record IsClass (ps : List ℕ) : Type 0 where
  pub canonical : IsCanonical ps
  pub bounded : All (λ p. p ≤ uint32_max) ps
  pub few : length ps / 2 < 65535

module _ {H : Type 0} (alloc : Allocator H) where
  either :
      (h : H) (s : DynBuf) (b : Bool) {x y : Option (H × DynBuf)} (xs ys : List (List ℕ))
      → x ≡ puts alloc h s xs
      → y ≡ puts alloc h s ys
      → (if b then x else y) ≡ puts alloc h s (if b then xs else ys)
  either h s true xs ys e k = e
  either h s false xs ys e k = k

  emit_intervals-puts :
      (h : H) (s : DynBuf) (ps : List ℕ) (len n : ℕ)
      → IsCanonical ps
      → All (λ p. p ≤ uint32_max) ps
      → length ps ≡ 2 * n
      → 0 < n
      → emit_intervals alloc h s ps len
        ≡ puts alloc h s (if leb (point_of ps) 0xffff then pieces16 ps len else pieces32 ps len)
  unfolding emit_intervals
  emit_intervals-puts h s ps len n c b even has =
      bind_some (highest ps) (point_of ps) _ (high_point ps n c.0 even b has)
      ∙ either h s (leb (point_of ps) 0xffff) (pieces16 ps len) (pieces32 ps len)
          (ranges16-puts alloc h s 21 len ps c.1) (ranges32-puts alloc h s 22 len ps c.1)

  pub re_emit_range-puts :
      (h : H) (s : DynBuf) (ps : List ℕ)
      → IsClass ps
      → re_emit_range alloc h s ps ≡ with_flag alloc (puts alloc h s (class_pieces ps))
  unfolding re_emit_range
  re_emit_range-puts h s [] c = char32-puts alloc h s 2 uint32_max
  re_emit_range-puts h s (p ∷ []) c = absurd c.canonical.1
  re_emit_range-puts h s (p ∷ q ∷ ps) c =
      let allowed : leb 65535 (length (p ∷ q ∷ ps) / 2) ≡ false =
        (let few = c.few in ground arith) in
      let has : (length (p ∷ q ∷ ps) / 2 == 0) ≡ false =
        (let even = half (p ∷ q ∷ ps) c.canonical.1 in ground arith) in
      rw (allowed, has)
        (ap (with_flag alloc) (
          emit_intervals-puts h s (p ∷ q ∷ ps) (length (p ∷ q ∷ ps) / 2) (length (p ∷ q ∷ ps) / 2)
            c.canonical c.bounded (half (p ∷ q ∷ ps) c.canonical.1)
            (let even = half (p ∷ q ∷ ps) c.canonical.1 in omega arith)))

pub length-joined : (cs : List (List ℕ)) → length (joined cs) ≡ total cs
length-joined [] = refl
length-joined (c ∷ cs) = omega (arith, length-append c (joined cs), length-joined cs)

total-blocks :
    (k w : ℕ) (g : ℕ → ℕ) (ps : List ℕ) (n : ℕ)
    → w ≡ 2 * k
    → length ps ≡ 2 * n
    → total (blocks k g ps) ≡ n * w
total-blocks k w g [] zero e h = omega arith
total-blocks k w g [] (suc n) e h = absurd (omega arith)
total-blocks k w g (p ∷ []) n e h = absurd (omega arith)
total-blocks k w g (p ∷ q ∷ ps) zero e h = absurd (omega arith)
total-blocks k w g (p ∷ q ∷ ps) (suc n) e h = omega (
  arith,
  length-le_bytes k p,
  length-le_bytes k (g q),
  suc-mul n w,
  total-blocks k w g ps n e (omega arith),
)

pub total-16 : (ps : List ℕ) (n : ℕ) → length ps ≡ 2 * n → total (pieces16 ps n) ≡ 3 + n * 4
total-16 ps n e = omega (arith, total-blocks 2 4 last_code16 ps n refl e, length-le_bytes 2 n)

pub total-32 : (ps : List ℕ) (n : ℕ) → length ps ≡ 2 * n → total (pieces32 ps n) ≡ 3 + n * 8
total-32 ps n e = omega (arith, total-blocks 4 8 last_code32 ps n refl e, length-le_bytes 2 n)

-- The instruction takes less than 2 ^ 20 bytes.
pub total-class : (ps : List ℕ) → IsClass ps → total (class_pieces ps) < 2 ^ 20
total-class [] c = omega (arith, length-le_bytes 4 uint32_max)
total-class (p ∷ ps) c =
    if_cases (λ cs. total cs < 2 ^ 20) (leb (point_of (p ∷ ps)) 0xffff)
      (λ e.
        omega (arith, total-16 (p ∷ ps) (length (p ∷ ps) / 2) (half (p ∷ ps) c.canonical.1), c.few))
      (λ e.
        omega (arith, total-32 (p ∷ ps) (length (p ∷ ps) / 2) (half (p ∷ ps) c.canonical.1), c.few))
