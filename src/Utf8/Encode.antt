-- ===== src/Utf8/Encode.antt =====
-- What `unicode_to_utf8` writes, class by class, as arithmetic.
use quickjs_rs.Base.{ℕ, ◌+◌, ◌/◌, ◌%◌, ◌≤◌, ◌<◌}
use quickjs_rs.Base.{◌≡◌, arith, [], ◌∷◌, dec_lt}
use quickjs_rs.Utf8.{unicode_to_utf8}
use quickjs_rs.Utf8.Bytes.{cont_byte_lem, lead_2, lead_3, lead_4, lead_5, lead_6}

-- The continuation byte for the six bits from bit `s`, where `d` is `2 ^ s`.
abbrev pub cont : ℕ → ℕ → ℕ
cont c d = c / d % 64 + 128

pub encode_1 : (c : ℕ) → c < 0x80 → unicode_to_utf8 c ≡ c ∷ []
unfolding unicode_to_utf8
encode_1 c h = ground arith

pub encode_2 : (c : ℕ) → 0x80 ≤ c → c < 0x800 → unicode_to_utf8 c ≡ (0xc0 + c / 64) ∷ cont c 1 ∷ []
unfolding unicode_to_utf8
encode_2 c lo hi = ground (arith, lead_2 c hi, cont_byte_lem c 0)

pub encode_3 :
    (c : ℕ)
    → 0x800 ≤ c
    → c < 0x10000
    → unicode_to_utf8 c ≡ (0xe0 + c / 4096) ∷ cont c 64 ∷ cont c 1 ∷ []
unfolding unicode_to_utf8
encode_3 c lo hi = ground (arith, lead_3 c hi, cont_byte_lem c 0, cont_byte_lem c 6)

pub encode_4 :
    (c : ℕ)
    → 0x10000 ≤ c
    → c < 0x200000
    → unicode_to_utf8 c ≡ (0xf0 + c / 262144) ∷ cont c 4096 ∷ cont c 64 ∷ cont c 1 ∷ []
unfolding unicode_to_utf8
encode_4 c lo hi =
    ground (arith, lead_4 c hi, cont_byte_lem c 0, cont_byte_lem c 6, cont_byte_lem c 12)

pub encode_5 :
    (c : ℕ)
    → 0x200000 ≤ c
    → c < 0x4000000
    → unicode_to_utf8 c
      ≡ (0xf8 + c / 16777216) ∷ cont c 262144 ∷ cont c 4096 ∷ cont c 64 ∷ cont c 1 ∷ []
unfolding unicode_to_utf8
encode_5 c lo hi = ground (
  arith,
  lead_5 c hi,
  cont_byte_lem c 0,
  cont_byte_lem c 6,
  cont_byte_lem c 12,
  cont_byte_lem c 18,
)

pub encode_6 :
    (c : ℕ)
    → 0x4000000 ≤ c
    → c < 0x80000000
    → unicode_to_utf8 c
      ≡ (0xfc + c / 1073741824)
        ∷ cont c 16777216
        ∷ cont c 262144
        ∷ cont c 4096
        ∷ cont c 64
        ∷ cont c 1
        ∷ []
unfolding unicode_to_utf8
encode_6 c lo hi = ground (
  arith,
  lead_6 c hi,
  cont_byte_lem c 0,
  cont_byte_lem c 6,
  cont_byte_lem c 12,
  cont_byte_lem c 18,
  cont_byte_lem c 24,
)

pub encode_none : (c : ℕ) → 0x80000000 ≤ c → unicode_to_utf8 c ≡ []
unfolding unicode_to_utf8
encode_none c h = ground arith

-- The six classes of codes, and what is left.
pub data Class (c : ℕ) : Type 0 where
  one_byte : c < 0x80 → Class c
  two_bytes : 0x80 ≤ c → c < 0x800 → Class c
  three_bytes : 0x800 ≤ c → c < 0x10000 → Class c
  four_bytes : 0x10000 ≤ c → c < 0x200000 → Class c
  five_bytes : 0x200000 ≤ c → c < 0x4000000 → Class c
  six_bytes : 0x4000000 ≤ c → c < 0x80000000 → Class c
  too_large : 0x80000000 ≤ c → Class c

pub classify : (c : ℕ) → Class c
classify c = elim (dec_lt c 0x80) [
  | yes h ↦ one_byte h
  | no h ↦ elim (dec_lt c 0x800) [
    | yes h2 ↦ two_bytes (omega arith) h2
    | no h2 ↦ elim (dec_lt c 0x10000) [
      | yes h3 ↦ three_bytes (omega arith) h3
      | no h3 ↦ elim (dec_lt c 0x200000) [
        | yes h4 ↦ four_bytes (omega arith) h4
        | no h4 ↦ elim (dec_lt c 0x4000000) [
          | yes h5 ↦ five_bytes (omega arith) h5
          | no h5 ↦ elim (dec_lt c 0x80000000) [
            | yes h6 ↦ six_bytes (omega arith) h6
            | no h6 ↦ too_large (omega arith)
          ]
        ]
      ]
    ]
  ]
]
