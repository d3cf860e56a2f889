-- ===== src/Utf8.antt =====
-- UTF-8 of libquickjs-sys/embed/quickjs/cutils.c: `unicode_to_utf8` and `unicode_from_utf8`.
-- A buffer is the list of its bytes from the pointer on; a decoder returns the rest of it.
pub mod Bytes
pub mod Encode
pub mod Decode
pub mod RoundTrip
pub mod Bounds
pub mod Canonical
pub mod Examples
use quickjs_rs.Base.{ℕ, zero, suc, ◌-◌, ◌+◌, u8, ◌<<<◌, ◌>>>◌, bit_and, bit_or, ltb, leb, ◌||◌}
use quickjs_rs.Base.{if◌then◌else◌, Option, none, some, List, [], ◌∷◌, get_or}

-- `*q++ = ((c >> s) & 0x3f) | 0x80`
pub cont_byte : ℕ → ℕ → ℕ
cont_byte c s = u8 (bit_or (bit_and (c >>> s) 0x3f) 0x80)

-- `*q++ = (c >> s) | mark`
pub lead_byte : ℕ → ℕ → ℕ → ℕ
lead_byte c s mark = u8 (bit_or (c >>> s) mark)

-- The bytes written for `c`; their number is the value returned.
pub unicode_to_utf8 : ℕ → List ℕ
unicode_to_utf8 c =
    if ltb c 0x80
    then u8 c ∷ []
    else let q1 = cont_byte c 0 ∷ [] in
      if ltb c 0x800
      then lead_byte c 6 0xc0 ∷ q1
      else let q2 = cont_byte c 6 ∷ q1 in
        if ltb c 0x10000
        then lead_byte c 12 0xe0 ∷ q2
        else let q3 = cont_byte c 12 ∷ q2 in
          if ltb c 0x00200000
          then lead_byte c 18 0xf0 ∷ q3
          else let q4 = cont_byte c 18 ∷ q3 in
            if ltb c 0x04000000
            then lead_byte c 24 0xf8 ∷ q4
            else if ltb c 0x80000000
            then lead_byte c 30 0xfc ∷ cont_byte c 24 ∷ q4
            else []

abbrev pub utf8_min_code : List ℕ
utf8_min_code = 0x80 ∷ 0x800 ∷ 0x10000 ∷ 0x00200000 ∷ 0x04000000 ∷ []

abbrev pub utf8_first_code_mask : List ℕ
utf8_first_code_mask = 0x1f ∷ 0xf ∷ 0x7 ∷ 0x3 ∷ 0x1 ∷ []

-- `fault` is a read past the end of the buffer, `invalid` the return of -1, and `char c p` the
-- return of `c` with `*pp` set to `p`.
pub data Decoded : Type 0 where
  fault invalid : Decoded
  char : ℕ → List ℕ → Decoded

-- The `switch` on the first byte: the number of bytes that follow it.
pub trail_count : ℕ → Option ℕ
trail_count c =
    if ltb c 0xc0
    then none
    else if leb c 0xdf
    then some 1
    else if leb c 0xef
    then some 2
    else if leb c 0xf7
    then some 3
    else if leb c 0xfb
    then some 4
    else if leb c 0xfd
    then some 5
    else none

-- The loop over the bytes that follow, with `l - i` of them left, and the test after it.
pub decode_trail : ℕ → ℕ → ℕ → List ℕ → Decoded
decode_trail zero min_code c p = if ltb c min_code then invalid else char c p
decode_trail (suc left) min_code c [] = fault
decode_trail (suc left) min_code c (b ∷ p) =
    let next = decode_trail left min_code (bit_or (c <<< 6) (bit_and b 0x3f)) p in
    if ltb b 0x80 || leb 0xc0 b then invalid else next

decode_long : ℕ → ℕ → ℕ → List ℕ → Decoded
decode_long l max_len c p =
    if ltb (max_len - 1) l
    then invalid
    else decode_trail l (get_or utf8_min_code (l - 1) 0)
        (bit_and c (get_or utf8_first_code_mask (l - 1) 0)) p

-- `max_len` is at least 1, as the source's comment demands.
pub unicode_from_utf8 : List ℕ → ℕ → Decoded
unfolding decode_long
unicode_from_utf8 [] max_len = fault
unicode_from_utf8 (c ∷ p) max_len =
    if ltb c 0x80
    then char c p
    else elim (trail_count c) [ none ↦ invalid | some l ↦ decode_long l max_len c p ]
