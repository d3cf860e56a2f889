-- ===== src/Utf8/Bounds.antt =====
-- Reads and writes of the two functions stay in their buffers.
use quickjs_rs.Base.{ℕ, zero, suc, ◌-◌, ◌≤◌, ◌<◌, All}
use quickjs_rs.Base.{◌≡◌, ◌≢◌, arith, List, [], ◌∷◌, length, get_or}
use quickjs_rs.Base.{bit_and, bit_or, ◌<<<◌, Option-cases, inl, inr}
use quickjs_rs.Utf8.{
  unicode_to_utf8, cont_byte, lead_byte, decode_trail, decode_long, unicode_from_utf8, trail_count,
}
use quickjs_rs.Utf8.{fault, utf8_min_code, utf8_first_code_mask}

-- At most `UTF8_CHAR_LEN_MAX` bytes are written, each fits `uint8_t`, and 0 is returned exactly
-- for the codes of more than 31 bits.
pub unicode_to_utf8_bounds :
    (c : ℕ)
    → (length (unicode_to_utf8 c) ≤ 6)
      × All (λ b. b < 256) (unicode_to_utf8 c)
      × (c < 0x80000000 → 1 ≤ length (unicode_to_utf8 c))
      × (0x80000000 ≤ c → unicode_to_utf8 c ≡ [])
unfolding unicode_to_utf8 cont_byte lead_byte
unicode_to_utf8_bounds c = ground arith

decode_trail-ne-fault :
    (left min_code c : ℕ) (p : List ℕ) → left ≤ length p → decode_trail left min_code c p ≢ fault
unfolding decode_trail
decode_trail-ne-fault zero min_code c p h = ground arith
decode_trail-ne-fault (suc left) min_code c [] h = absurd (omega arith)
decode_trail-ne-fault (suc left) min_code c (b ∷ p) h =
    ground (arith, decode_trail-ne-fault left min_code (bit_or (c <<< 6) (bit_and b 0x3f)) p)

decode_long-ne-fault :
    (l max_len c : ℕ) (p : List ℕ)
    → 1 ≤ max_len
    → max_len ≤ suc (length p)
    → decode_long l max_len c p ≢ fault
unfolding decode_long
decode_long-ne-fault l max_len c p one h =
    let start = bit_and c (get_or utf8_first_code_mask (l - 1) 0) in
    ground (arith, decode_trail-ne-fault l (get_or utf8_min_code (l - 1) 0) start p)

-- With `max_len` bytes in the buffer, and at least one, no byte past it is read.
pub unicode_from_utf8-ne-fault :
    (p : List ℕ) (max_len : ℕ)
    → 1 ≤ max_len
    → max_len ≤ length p
    → unicode_from_utf8 p max_len ≢ fault
unfolding unicode_from_utf8
unicode_from_utf8-ne-fault [] max_len one h = absurd (omega arith)
unicode_from_utf8-ne-fault (c ∷ p) max_len one h = elim (Option-cases (trail_count c)) [
  | inl e ↦ rw e (ground arith)
  | inr (l, e) ↦ rw e (ground (arith, decode_long-ne-fault l max_len c p))
]
