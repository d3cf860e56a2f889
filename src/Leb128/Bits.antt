-- ===== src/Leb128/Bits.antt =====
-- The bits of a group, the mark of a byte that another follows, and `^` with ones.
use quickjs_rs.Base.{
  ℕ, ◌+◌, ◌-◌, ◌*◌, ◌/◌, ◌%◌, ◌^◌, ◌≤◌, ◌<◌, ◌≡◌, arith, bit_and, bit_or, bit_xor, u32, ◌<<<◌, ◌⊎◌,
  inl, inr, dec_lt, ap, ◌∙◌,
}
use quickjs_rs.Base.Bits.{
  bit_and-ones, bit_and-power, bit_or-fields, bit_or_comm, bit_xor-ones, bit_xor-zero,
}
use quickjs_rs.Leb128.{negated, zigzag, unzigzag}

-- The top bit of a byte.
pub bit_and-top : (x : ℕ) → bit_and x 0x80 ≡ x / 128 % 2 * 128
bit_and-top x = bit_and-power 7 x

pub marked : (v : ℕ) → bit_or (bit_and v 0x7f) 0x80 ≡ v % 128 + 128
marked v = omega (
  arith,
  bit_and-ones 7 v,
  bit_or_comm (bit_and v 0x7f) 0x80,
  bit_or-fields 7 1 (bit_and v 0x7f) (omega (arith, bit_and-ones 7 v)),
)

-- A group is put above `k` bits that are there.
pub joined_group :
    (k acc a : ℕ)
    → acc < 2 ^ k
    → a % 128 * 2 ^ k < 2 ^ 32
    → bit_or acc (u32 (bit_and a 0x7f <<< k)) ≡ acc + a % 128 * 2 ^ k
joined_group k acc a h fits =
    ap (λ d. bit_or acc (u32 (d * 2 ^ k))) (bit_and-ones 7 a)
    ∙ ap (bit_or acc) (in_word (a % 128 * 2 ^ k) fits)
    ∙ bit_or_comm acc (a % 128 * 2 ^ k)
    ∙ bit_or-fields k (a % 128) acc h
    ∙ grind arith
  where
    in_word : (x : ℕ) → x < 2 ^ 32 → u32 x ≡ x
    in_word x lt = omega arith

zigzag_value :
    (v : ℕ)
    → v < 2 ^ 32
    → ((v < 2 ^ 31) × (zigzag v ≡ 2 * v)) ⊎ ((2 ^ 31 ≤ v) × (zigzag v ≡ 2 ^ 33 - 1 - 2 * v))
unfolding zigzag negated
zigzag_value v h = elim (dec_lt v (2 ^ 31)) [
  | yes low ↦ inl (
    low,
    ap (bit_xor (u32 (2 * v)))
          (let none_on : u32 (2 ^ 32 - v / 2 ^ 31) ≡ 0 = omega arith in none_on)
        ∙ bit_xor-zero (u32 (2 * v))
        ∙ omega arith,
  )
  | no high ↦ inr (
    omega arith,
    ap (bit_xor (u32 (2 * v)))
          (let all_on : u32 (2 ^ 32 - v / 2 ^ 31) ≡ 2 ^ 32 - 1 = omega arith in all_on)
        ∙ bit_xor-ones 32 (u32 (2 * v)) (omega arith)
        ∙ omega arith,
  )
]

-- The zigzag code has a word's 32 bits, and is undone.
pub zigzag-lt : (v : ℕ) → v < 2 ^ 32 → zigzag v < 2 ^ 32
zigzag-lt v h = elim (zigzag_value v h) [
  | inl (low, e) ↦ omega (arith, low, e)
  | inr (high, e) ↦ omega (arith, high, e)
]

unzigzag_even : (w : ℕ) → w % 2 ≡ 0 → unzigzag w ≡ w / 2
unfolding unzigzag negated
unzigzag_even w e =
    ap (bit_xor (w / 2))
      (let none_on : u32 (2 ^ 32 - bit_and w 1) ≡ 0 = omega (arith, bit_and-ones 1 w) in none_on)
    ∙ bit_xor-zero (w / 2)

unzigzag_odd : (w : ℕ) → w < 2 ^ 32 → w % 2 ≡ 1 → unzigzag w ≡ 2 ^ 32 - 1 - w / 2
unfolding unzigzag negated
unzigzag_odd w h e =
    ap (bit_xor (w / 2)) (
      let all_on : u32 (2 ^ 32 - bit_and w 1) ≡ 2 ^ 32 - 1 = omega (arith, bit_and-ones 1 w) in
      all_on)
    ∙ bit_xor-ones 32 (w / 2) (omega arith)

pub unzigzag-zigzag : (v : ℕ) → v < 2 ^ 32 → unzigzag (zigzag v) ≡ v
unzigzag-zigzag v h = elim (zigzag_value v h) [
  | inl (low, e) ↦ rw e (omega (arith, unzigzag_even (2 * v) (omega arith)))
  | inr (high, e) ↦ rw e (
      omega (
        arith,
        high,
        unzigzag_odd (2 ^ 33 - 1 - 2 * v) (omega (arith, high)) (omega (arith, high)),
      ))
]
