-- ===== src/Utf8/Bytes.antt =====
-- The bytes of the encoder, and the steps of the decoder, as arithmetic.
use quickjs_rs.Base.{ℕ, ◌+◌, ◌*◌, ◌/◌, ◌%◌, ◌^◌, ◌≤◌, ◌<◌, bit_and, bit_or}
use quickjs_rs.Base.{◌≡◌, arith, ◌<<<◌, ◌>>>◌}
use quickjs_rs.Base.Bits.{bit_and-ones, bit_or-fields, bit_or_comm}
use quickjs_rs.Utf8.{cont_byte, lead_byte}

pub cont_byte_lem : (c s : ℕ) → cont_byte c s ≡ (c >>> s) % 64 + 128
unfolding cont_byte
cont_byte_lem c s = omega (
  arith,
  bit_and-ones 6 (c >>> s),
  bit_or_comm (bit_and (c >>> s) 0x3f) 0x80,
  bit_or-fields 6 2 (bit_and (c >>> s) 0x3f) (omega (arith, bit_and-ones 6 (c >>> s))),
)

-- A mark whose low `k` bits are zero is added to a value of `k` bits.
lead_byte_lem :
    (k q c s : ℕ)
    → (c >>> s) < 2 ^ k
    → q * 2 ^ k + 2 ^ k ≤ 256
    → lead_byte c s (q * 2 ^ k) ≡ q * 2 ^ k + (c >>> s)
unfolding lead_byte
lead_byte_lem k q c s h fits =
    omega (arith, bit_or_comm (c >>> s) (q * 2 ^ k), bit_or-fields k q (c >>> s) h)

pub lead_2 : (c : ℕ) → c < 0x800 → lead_byte c 6 0xc0 ≡ 0xc0 + c / 64
lead_2 c h = lead_byte_lem 5 6 c 6 (omega arith) (omega arith)

pub lead_3 : (c : ℕ) → c < 0x10000 → lead_byte c 12 0xe0 ≡ 0xe0 + c / 4096
lead_3 c h = lead_byte_lem 4 14 c 12 (omega arith) (omega arith)

pub lead_4 : (c : ℕ) → c < 0x200000 → lead_byte c 18 0xf0 ≡ 0xf0 + c / 262144
lead_4 c h = lead_byte_lem 3 30 c 18 (omega arith) (omega arith)

pub lead_5 : (c : ℕ) → c < 0x4000000 → lead_byte c 24 0xf8 ≡ 0xf8 + c / 16777216
lead_5 c h = lead_byte_lem 2 62 c 24 (omega arith) (omega arith)

pub lead_6 : (c : ℕ) → c < 0x80000000 → lead_byte c 30 0xfc ≡ 0xfc + c / 1073741824
lead_6 c h = lead_byte_lem 1 126 c 30 (omega arith) (omega arith)

-- `(c << 6) | (b & 0x3f)`
pub next_code : (c b : ℕ) → bit_or (c <<< 6) (bit_and b 0x3f) ≡ c * 64 + b % 64
next_code c b =
    omega (
      arith,
      bit_and-ones 6 b,
      bit_or-fields 6 c (bit_and b 0x3f) (omega (arith, bit_and-ones 6 b)),
    )
