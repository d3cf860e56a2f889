-- ===== src/JsString.antt =====
-- Strings of the engine, of libquickjs-sys/embed/quickjs/quickjs.c: comparison, hashing, and the
-- strings that are array indices. A string is its units, which take 8 or 16 bits each; `none` is a
-- read behind the last one.
pub mod Order
pub mod Numbers
pub mod Examples
use quickjs_rs.Base.{
  ℕ, zero, suc, ◌+◌, ◌*◌, ◌==◌, ltb, leb, min, ◌-◌, ◌>>>◌, ◌&&◌, ◌||◌, not, if◌then◌else◌, Option,
  none, some, List, [], ◌∷◌, length, Bool, true, false, u32,
}
use quickjs_rs.Base.Partial.{◌>>=◌}
use quickjs_rs.Base.Int.{ℤ, pos, negsuc, sub_ℕ}

pub record JsString : Type 0 where
  pub is_wide_char : Bool
  pub units : List ℕ

unfoldable pub is_zero : ℤ → Bool
is_zero (pos n) = n == 0
is_zero (negsuc n) = false

unfoldable pub neg : ℤ → ℤ
neg (pos zero) = pos zero
neg (pos (suc n)) = negsuc n
neg (negsuc n) = pos (suc n)

-- The loop of `memcmp16` and `memcmp16_8`, and what `memcmp` of the C library does up to the size of
-- the result.
unfoldable pub memcmp16 : List ℕ → List ℕ → ℕ → Option ℤ
unfolding is_zero
memcmp16 src1 src2 zero = some (pos 0)
memcmp16 [] src2 (suc len) = none
memcmp16 (a ∷ src1) [] (suc len) = none
memcmp16 (a ∷ src1) (b ∷ src2) (suc len) =
    let c = sub_ℕ a b in elim (is_zero c) [ false ↦ some c | true ↦ memcmp16 src1 src2 len ]

unfoldable pub memcmp16_8 : List ℕ → List ℕ → ℕ → Option ℤ
unfolding memcmp16
memcmp16_8 src1 src2 len = memcmp16 src1 src2 len

unfoldable pub js_string_memcmp : JsString → JsString → ℕ → Option ℤ
unfolding memcmp16 memcmp16_8 neg
js_string_memcmp p1 p2 len =
    if p1.is_wide_char
    then (if p2.is_wide_char
        then memcmp16 p1.units p2.units len
        else memcmp16_8 p1.units p2.units len)
    else if p2.is_wide_char
    then (memcmp16_8 p2.units p1.units len >>= λ res. some (neg res))
    else memcmp16 p1.units p2.units len

unfoldable pub js_string_compare : JsString → JsString → Option ℤ
unfolding js_string_memcmp is_zero
js_string_compare p1 p2 =
    let len1 = length p1.units in
    let len2 = length p2.units in
    js_string_memcmp p1 p2 (min len1 len2) >>= λ res.
    if is_zero res
    then some (if len1 == len2 then pos 0 else if ltb len1 len2 then negsuc 0 else pos 1)
    else some res

-- `hash_string8` and `hash_string16`, on `uint32_t`
unfoldable pub hash_units : List ℕ → ℕ → ℕ
hash_units [] h = h
hash_units (c ∷ str) h = hash_units str (u32 (h * 263 + c))

unfoldable pub hash_string : JsString → ℕ → ℕ
unfolding hash_units
hash_string str h = hash_units str.units h

unfoldable pub is_num : ℕ → Bool
is_num c = leb 48 c && leb c 57

-- The loop of `is_num_string`, with `n64` a sum in 64 bits of which `n` has 32.
unfoldable pub num_loop : List ℕ → ℕ → Option ℕ
unfolding is_num
num_loop [] n = some n
num_loop (c ∷ units) n =
    let n64 = n * 10 + (c - 48) in
    let rest = num_loop units n64 in
    if not (is_num c) then none else if not (n64 >>> 32 == 0) then none else rest

-- `is_num_string`: the number where it returns TRUE.
unfoldable pub is_num_string : JsString → Option ℕ
unfolding num_loop is_num
is_num_string p =
    let len = length p.units in
    if len == 0 || ltb 10 len then none else elim p.units [
      | [] ↦ none
      | c ∷ units ↦
          if is_num c
          then (if c == 48 then (if len == 1 then some 0 else none) else num_loop units (c - 48))
          else none
    ]
