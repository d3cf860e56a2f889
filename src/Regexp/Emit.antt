-- ===== src/Regexp/Emit.antt =====
-- What the compiler of libregexp.c writes to `byte_code`: the single instructions, and the class of
-- characters of `re_emit_range`. The state is the heap and the buffer; whether a call of cutils.c
-- failed is left to `dbuf_error`, as in the source. `none` is an access out of an array.
use quickjs_rs.Base.{
  ℕ, ◌+◌, ◌-◌, ◌/◌, ◌^◌, leb, ◌==◌, if◌then◌else◌, u32, Option, none, some, List, [], ◌∷◌, Bool,
  true, false, length, get_elem?,
}
use quickjs_rs.Base.Partial.{◌>>=◌}
use quickjs_rs.DynBuf.{DynBuf, Done, dbuf_putc, dbuf_put_u16, dbuf_put_u32}
use quickjs_rs.DynBuf.Memory.{Allocator}

abbrev pub uint32_max : ℕ
uint32_max = 4294967295

-- `REOP_char32`, `REOP_range` and `REOP_range32`
abbrev pub reop_char32 : ℕ
reop_char32 = 2

abbrev pub reop_range : ℕ
reop_range = 21

abbrev pub reop_range32 : ℕ
reop_range32 = 22

-- The last code of an interval in 16 bits, from the point at its end.
unfoldable pub last_code16 : ℕ → ℕ
last_code16 point =
    let high = u32 (point + 2 ^ 32 - 1) in if high == uint32_max - 1 then 0xffff else high

-- The point that decides between the two forms.
unfoldable pub highest : List ℕ → Option ℕ
highest points = do
  high ← get_elem? points (length points - 1)
  if high == uint32_max then get_elem? points (length points - 2) else some high

module _ {H : Type 0} (alloc : Allocator H) where
  -- The result of a call that the caller does not look at.
  unfoldable pub ignoring : Option (Done alloc) → Option (H × DynBuf)
  ignoring none = none
  ignoring (some (h, s, ok)) = some (h, s)

  unfoldable pub re_emit_op : H → DynBuf → ℕ → Option (H × DynBuf)
  unfolding ignoring
  re_emit_op h s op = ignoring (dbuf_putc alloc h s op)

  -- The last part of the result is the offset of the value.
  unfoldable pub re_emit_op_u32 : H → DynBuf → ℕ → ℕ → Option (H × DynBuf × ℕ)
  unfolding ignoring
  re_emit_op_u32 h s op val = do
    (h', s') ← ignoring (dbuf_putc alloc h s op)
    let pos = s'.size
    (h'', s'') ← ignoring (dbuf_put_u32 alloc h' s' val)
    some (h'', s'', pos)

  -- The jump is from behind its own four bytes.
  unfoldable pub re_emit_goto : H → DynBuf → ℕ → ℕ → Option (H × DynBuf × ℕ)
  unfolding ignoring
  re_emit_goto h s op val = do
    (h', s') ← ignoring (dbuf_putc alloc h s op)
    let pos = s'.size
    (h'', s'') ← ignoring (dbuf_put_u32 alloc h' s' (u32 (val + 2 ^ 32 - u32 (pos + 4))))
    some (h'', s'', pos)

  unfoldable pub re_emit_op_u8 : H → DynBuf → ℕ → ℕ → Option (H × DynBuf)
  unfolding ignoring
  re_emit_op_u8 h s op val = do
    (h', s') ← ignoring (dbuf_putc alloc h s op)
    ignoring (dbuf_putc alloc h' s' val)

  unfoldable pub re_emit_op_u16 : H → DynBuf → ℕ → ℕ → Option (H × DynBuf)
  unfolding ignoring
  re_emit_op_u16 h s op val = do
    (h', s') ← ignoring (dbuf_putc alloc h s op)
    ignoring (dbuf_put_u16 alloc h' s' val)

  -- The two loops over the points, by two.
  unfoldable pub emit_ranges16 : H → DynBuf → List ℕ → Option (H × DynBuf)
  unfolding ignoring last_code16
  emit_ranges16 h s [] = some (h, s)
  emit_ranges16 h s (lo ∷ []) = none
  emit_ranges16 h s (lo ∷ hi ∷ points) = do
    (h', s') ← ignoring (dbuf_put_u16 alloc h s lo)
    (h'', s'') ← ignoring (dbuf_put_u16 alloc h' s' (last_code16 hi))
    emit_ranges16 h'' s'' points

  unfoldable pub emit_ranges32 : H → DynBuf → List ℕ → Option (H × DynBuf)
  unfolding ignoring
  emit_ranges32 h s [] = some (h, s)
  emit_ranges32 h s (lo ∷ []) = none
  emit_ranges32 h s (lo ∷ hi ∷ points) = do
    (h', s') ← ignoring (dbuf_put_u32 alloc h s lo)
    (h'', s'') ← ignoring (dbuf_put_u32 alloc h' s' (u32 (hi + 2 ^ 32 - 1)))
    emit_ranges32 h'' s'' points

  unfoldable pub emit_intervals : H → DynBuf → List ℕ → ℕ → Option (H × DynBuf)
  unfolding highest re_emit_op_u16 emit_ranges16 emit_ranges32
  emit_intervals h s points len = highest points >>= λ high.
      if leb high 0xffff
      then (re_emit_op_u16 h s reop_range len >>= λ (h', s'). emit_ranges16 h' s' points)
      else (re_emit_op_u16 h s reop_range32 len >>= λ (h', s'). emit_ranges32 h' s' points)

  -- `re_emit_range`, with the points of the CharRange; the last part of the result is whether it
  -- returned 0.
  unfoldable pub re_emit_range : H → DynBuf → List ℕ → Option (H × DynBuf × Bool)
  unfolding re_emit_op_u32 emit_intervals
  re_emit_range h s points =
      let len = length points / 2 in
      if leb 65535 len
      then some (h, s, false)
      else if len == 0
      then (re_emit_op_u32 h s reop_char32 uint32_max >>= λ (h', s', pos). some (h', s', true))
      else (emit_intervals h s points len >>= λ (h', s'). some (h', s', true))
