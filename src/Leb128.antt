-- ===== src/Leb128.antt =====
-- Integers of variable length in bytecode: `dbuf_put_leb128`, `get_leb128` and their signed forms
-- of libquickjs-sys/embed/quickjs/quickjs.c. Words of 32 bits are numbers below 2 ^ 32, and a signed
-- one is its two's complement. A buffer to read from is the list of its bytes up to `buf_end`.
pub mod Bits
pub mod Encode
pub mod RoundTrip
pub mod Examples
use quickjs_rs.Base.{
  ℕ, zero, suc, ◌+◌, ◌-◌, ◌*◌, ◌^◌, ◌==◌, Option, none, some, List, [], ◌∷◌, Bool, true, false,
  bit_and, bit_or, bit_xor, ◌<<<◌, ◌>>>◌, u8, u32,
}
use quickjs_rs.DynBuf.{DynBuf, dbuf_putc}
use quickjs_rs.DynBuf.Memory.{Allocator}

-- A word has at most five groups of seven bits.
abbrev pub groups : ℕ
groups = 5

module _ {H : Type 0} (alloc : Allocator H) where
  -- The loop; what `dbuf_putc` returns is not looked at. A round takes seven bits off `v`, so the
  -- fuel is the number of groups.
  unfoldable pub put_loop : ℕ → H → DynBuf → ℕ → Option (H × DynBuf)
  put_loop zero h s v = some (h, s)
  put_loop (suc left) h s v = elim (v >>> 7 == 0) [
    | true ↦ elim (dbuf_putc alloc h s (bit_and v 0x7f)) [
      | none ↦ none
      | some (h', s', _) ↦ some (h', s')
    ]
    | false ↦ elim (dbuf_putc alloc h s (bit_or (bit_and v 0x7f) 0x80)) [
      | none ↦ none
      | some (h', s', _) ↦ put_loop left h' s' (v >>> 7)
    ]
  ]

  unfoldable pub dbuf_put_leb128 : H → DynBuf → ℕ → Option (H × DynBuf)
  unfolding put_loop
  dbuf_put_leb128 h s v = put_loop groups h s v

-- `-x` on a `uint32_t`
unfoldable pub negated : ℕ → ℕ
negated x = u32 (2 ^ 32 - x)

-- `(2 * v) ^ -(v >> 31)`
unfoldable pub zigzag : ℕ → ℕ
unfolding negated
zigzag v = bit_xor (u32 (2 * v)) (negated (v >>> 31))

-- `(val >> 1) ^ -(val & 1)`
unfoldable pub unzigzag : ℕ → ℕ
unfolding negated
unzigzag val = bit_xor (val >>> 1) (negated (bit_and val 1))

module _ {H : Type 0} (alloc : Allocator H) where
  unfoldable pub dbuf_put_sleb128 : H → DynBuf → ℕ → Option (H × DynBuf)
  unfolding dbuf_put_leb128 zigzag
  dbuf_put_sleb128 h s v = dbuf_put_leb128 alloc h s (zigzag v)

-- The loop, with `left` rounds to go, at bit `shift`, `v` so far: the value and the bytes behind it.
unfoldable pub get_loop : ℕ → ℕ → ℕ → List ℕ → Option (ℕ × List ℕ)
get_loop zero shift v p = none
get_loop (suc left) shift v [] = none
get_loop (suc left) shift v (a ∷ p) = elim (bit_and a 0x80 == 0) [
  | true ↦ some (bit_or v (u32 (bit_and a 0x7f <<< shift)), p)
  | false ↦ get_loop left (shift + 7) (bit_or v (u32 (bit_and a 0x7f <<< shift))) p
]

-- `get_leb128`; `none` is the return of -1, with 0 in `*pval`.
unfoldable pub get_leb128 : List ℕ → Option (ℕ × List ℕ)
unfolding get_loop
get_leb128 buf = get_loop groups 0 0 buf

unfoldable pub get_sleb128 : List ℕ → Option (ℕ × List ℕ)
unfolding get_leb128 unzigzag
get_sleb128 buf = elim (get_leb128 buf) [ none ↦ none | some (val, p) ↦ some (unzigzag val, p) ]
