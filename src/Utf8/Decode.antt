-- ===== src/Utf8/Decode.antt =====
-- Steps of `unicode_from_utf8`, as arithmetic.
use quickjs_rs.Base.{ℕ, suc, ◌+◌, ◌*◌, ◌%◌, ◌≤◌, ◌<◌}
use quickjs_rs.Base.{◌≡◌, arith, List, ◌∷◌}
use quickjs_rs.Base.Bits.{bit_and-ones}
use quickjs_rs.Utf8.{trail_count, decode_trail, unicode_from_utf8, char}
use quickjs_rs.Utf8.Bytes.{next_code}

-- A continuation byte adds six bits.
pub trail_step :
    (left min_code c b : ℕ) (p : List ℕ)
    → 0x80 ≤ b
    → b < 0xc0
    → decode_trail (suc left) min_code c (b ∷ p) ≡ decode_trail left min_code (c * 64 + b % 64) p
unfolding decode_trail
trail_step left min_code c b p lo hi = rw (← next_code c b) (ground arith)

pub trail_end :
    (min_code c : ℕ) (p : List ℕ) → min_code ≤ c → decode_trail 0 min_code c p ≡ char c p
unfolding decode_trail
trail_end min_code c p h = ground arith

pub lead_1_step :
    (c max_len : ℕ) (p : List ℕ) → c < 0x80 → unicode_from_utf8 (c ∷ p) max_len ≡ char c p
unfolding unicode_from_utf8
lead_1_step c max_len p h = ground arith

module _ (c max_len : ℕ) (p : List ℕ) where
  pub lead_2_step :
      0xc0 ≤ c
      → c ≤ 0xdf
      → 2 ≤ max_len
      → unicode_from_utf8 (c ∷ p) max_len ≡ decode_trail 1 0x80 (c % 32) p
  unfolding unicode_from_utf8 trail_count
  lead_2_step lo hi fits = rw (← bit_and-ones 5 c) (ground arith)

  pub lead_3_step :
      0xe0 ≤ c
      → c ≤ 0xef
      → 3 ≤ max_len
      → unicode_from_utf8 (c ∷ p) max_len ≡ decode_trail 2 0x800 (c % 16) p
  unfolding unicode_from_utf8 trail_count
  lead_3_step lo hi fits = rw (← bit_and-ones 4 c) (ground arith)

  pub lead_4_step :
      0xf0 ≤ c
      → c ≤ 0xf7
      → 4 ≤ max_len
      → unicode_from_utf8 (c ∷ p) max_len ≡ decode_trail 3 0x10000 (c % 8) p
  unfolding unicode_from_utf8 trail_count
  lead_4_step lo hi fits = rw (← bit_and-ones 3 c) (ground arith)

  pub lead_5_step :
      0xf8 ≤ c
      → c ≤ 0xfb
      → 5 ≤ max_len
      → unicode_from_utf8 (c ∷ p) max_len ≡ decode_trail 4 0x200000 (c % 4) p
  unfolding unicode_from_utf8 trail_count
  lead_5_step lo hi fits = rw (← bit_and-ones 2 c) (ground arith)

  pub lead_6_step :
      0xfc ≤ c
      → c ≤ 0xfd
      → 6 ≤ max_len
      → unicode_from_utf8 (c ∷ p) max_len ≡ decode_trail 5 0x4000000 (c % 2) p
  unfolding unicode_from_utf8 trail_count
  lead_6_step lo hi fits = rw (← bit_and-ones 1 c) (ground arith)
