-- ===== src/Utf8/RoundTrip.antt =====
-- Decoding what `unicode_to_utf8` wrote.
use quickjs_rs.Base.{ℕ, suc, ◌+◌, ◌*◌, ◌/◌, ◌%◌, ◌≤◌, ◌<◌}
use quickjs_rs.Base.{◌≡◌, arith, List, ◌∷◌, ◌++◌, length}
use quickjs_rs.Utf8.{unicode_to_utf8, decode_trail, unicode_from_utf8, char}
use quickjs_rs.Utf8.Encode.{
  Class, one_byte, two_bytes, three_bytes, four_bytes, five_bytes, six_bytes, too_large, classify,
}
use quickjs_rs.Utf8.Encode.{cont, encode_1, encode_2, encode_3, encode_4, encode_5, encode_6}
use quickjs_rs.Utf8.Decode.{
  trail_step, trail_end, lead_1_step, lead_2_step, lead_3_step, lead_4_step, lead_5_step,
  lead_6_step,
}

-- A continuation byte of the encoder goes through the decoder's loop.
cont_step :
    (left min_code c e d : ℕ) (p : List ℕ)
    → decode_trail (suc left) min_code e (cont c d ∷ p)
      ≡ decode_trail left min_code (e * 64 + c / d % 64) p
cont_step left min_code c e d p = rw (
  trail_step left min_code e (cont c d) p (omega arith) (omega arith),
  byte_of (c / d % 64) (omega arith),
)
  where
    byte_of : (x : ℕ) → x < 64 → (x + 128) % 64 ≡ x
    byte_of x h = omega arith

-- The loop ends with the code, once its sextets are put together.
done :
    (min_code c e : ℕ) (p : List ℕ) → min_code ≤ c → e ≡ c → decode_trail 0 min_code e p ≡ char c p
done min_code c e p h q = rw q (trail_end min_code c p h)

module _ (c max_len : ℕ) (rest : List ℕ) where
  decode-encode_2 :
      0x80 ≤ c
      → c < 0x800
      → 2 ≤ max_len
      → unicode_from_utf8 (unicode_to_utf8 c ++ rest) max_len ≡ char c rest
  decode-encode_2 lo hi fits =
      rw
        (
          encode_2 c lo hi,
          lead_2_step (0xc0 + c / 64) max_len (cont c 1 ∷ rest) (omega arith) (omega arith) fits,
          cont_step,
        )
        (done 0x80 c _ rest lo (omega arith))

  decode-encode_3 :
      0x800 ≤ c
      → c < 0x10000
      → 3 ≤ max_len
      → unicode_from_utf8 (unicode_to_utf8 c ++ rest) max_len ≡ char c rest
  decode-encode_3 lo hi fits =
      rw
        (
          encode_3 c lo hi,
          lead_3_step (0xe0 + c / 4096) max_len (cont c 64 ∷ cont c 1 ∷ rest) (omega arith)
              (omega arith) fits,
          cont_step,
          cont_step,
        )
        (done 0x800 c _ rest lo (omega arith))

  decode-encode_4 :
      0x10000 ≤ c
      → c < 0x200000
      → 4 ≤ max_len
      → unicode_from_utf8 (unicode_to_utf8 c ++ rest) max_len ≡ char c rest
  decode-encode_4 lo hi fits =
      rw
        (
          encode_4 c lo hi,
          lead_4_step (0xf0 + c / 262144) max_len (cont c 4096 ∷ cont c 64 ∷ cont c 1 ∷ rest)
              (omega arith) (omega arith) fits,
          cont_step,
          cont_step,
          cont_step,
        )
        (done 0x10000 c _ rest lo (omega arith))

  decode-encode_5 :
      0x200000 ≤ c
      → c < 0x4000000
      → 5 ≤ max_len
      → unicode_from_utf8 (unicode_to_utf8 c ++ rest) max_len ≡ char c rest
  decode-encode_5 lo hi fits =
      rw
        (
          encode_5 c lo hi,
          lead_5_step (0xf8 + c / 16777216) max_len
              (cont c 262144 ∷ cont c 4096 ∷ cont c 64 ∷ cont c 1 ∷ rest) (omega arith)
              (omega arith) fits,
          cont_step,
          cont_step,
          cont_step,
          cont_step,
        )
        (done 0x200000 c _ rest lo (omega arith))

  decode-encode_6 :
      0x4000000 ≤ c
      → c < 0x80000000
      → 6 ≤ max_len
      → unicode_from_utf8 (unicode_to_utf8 c ++ rest) max_len ≡ char c rest
  decode-encode_6 lo hi fits =
      rw
        (
          encode_6 c lo hi,
          lead_6_step (0xfc + c / 1073741824) max_len
              (cont c 16777216 ∷ cont c 262144 ∷ cont c 4096 ∷ cont c 64 ∷ cont c 1 ∷ rest)
              (omega arith) (omega arith) fits,
          cont_step,
          cont_step,
          cont_step,
          cont_step,
          cont_step,
        )
        (done 0x4000000 c _ rest lo (omega arith))

-- Every code below 2 ^ 31 is read back from its encoding, whatever follows it, if `max_len` admits
-- the bytes of the encoding; the pointer is left just after them.
pub decode-encode :
    (c max_len : ℕ) (rest : List ℕ)
    → c < 0x80000000
    → length (unicode_to_utf8 c) ≤ max_len
    → unicode_from_utf8 (unicode_to_utf8 c ++ rest) max_len ≡ char c rest
decode-encode c max_len rest h fits = by_class (classify c)
  where
    by_class : Class c → unicode_from_utf8 (unicode_to_utf8 c ++ rest) max_len ≡ char c rest
    by_class (one_byte hi) = rw (encode_1 c hi) (lead_1_step c max_len rest hi)
    by_class (two_bytes lo hi) =
        decode-encode_2 c max_len rest lo hi (rw (encode_2 c lo hi) at fits)
    by_class (three_bytes lo hi) =
        decode-encode_3 c max_len rest lo hi (rw (encode_3 c lo hi) at fits)
    by_class (four_bytes lo hi) =
        decode-encode_4 c max_len rest lo hi (rw (encode_4 c lo hi) at fits)
    by_class (five_bytes lo hi) =
        decode-encode_5 c max_len rest lo hi (rw (encode_5 c lo hi) at fits)
    by_class (six_bytes lo hi) =
        decode-encode_6 c max_len rest lo hi (rw (encode_6 c lo hi) at fits)
    by_class (too_large lo) = absurd (omega arith)
