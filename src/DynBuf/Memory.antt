-- ===== src/DynBuf/Memory.antt =====
-- Blocks of memory as lists of bytes, `memcpy` and `memmove` on them, and the allocator.
use quickjs_rs.Base.{ℕ, ◌+◌, ◌≤◌, ◌≡◌, min, ltb, if◌then◌else◌, Option, none, some}
use quickjs_rs.Base.{List, ◌++◌, length, take, drop, arith, length-append, length-drop}
use quickjs_rs.Base.Slices.{take-append, drop-append, length-take_le}

-- A read of `len` bytes at `off`; `none` is an access out of the block.
unfoldable pub memread : List ℕ → ℕ → ℕ → Option (List ℕ)
memread buf off len = if ltb (length buf) (off + len) then none else some (take len (drop off buf))

-- A write of `bytes` at `off`; `none` is an access out of the block.
unfoldable pub memcpy : List ℕ → ℕ → List ℕ → Option (List ℕ)
memcpy buf off bytes =
    if ltb (length buf) (off + length bytes)
    then none
    else some (take off buf ++ bytes ++ drop (off + length bytes) buf)

-- A `DynBufReallocFunc`, with its `opaque` argument and the heap behind it as a state `H`. A call
-- that succeeds gives a block of the size asked for, which begins with what the old one held.
pub record Allocator (H : Type 0) : Type 0 where
  pub realloc : H → List ℕ → ℕ → H × Option (List ℕ)
  pub size :
      (h : H) (old : List ℕ) (n : ℕ) (new : List ℕ)
      → (realloc h old n).1 ≡ some new
      → length new ≡ n
  pub keeps :
      (h : H) (old : List ℕ) (n : ℕ) (new : List ℕ)
      → (realloc h old n).1 ≡ some new
      → take (min (length old) n) new ≡ take (min (length old) n) old

-- A write inside the block keeps its length, and ends what it writes before.
pub memcpy_lem :
    (buf : List ℕ) (off : ℕ) (bytes : List ℕ)
    → off + length bytes ≤ length buf
    → (new : List ℕ) × (memcpy buf off bytes ≡ some new)
      × (length new ≡ length buf)
      × (take (off + length bytes) new ≡ take off buf ++ bytes)
      × (drop (off + length bytes) new ≡ drop (off + length bytes) buf)
unfolding memcpy
memcpy_lem buf off bytes h = (
  before ++ bytes ++ after,
  ground arith,
  omega (
    arith,
    length-append (before ++ bytes) after,
    measured,
    length-drop (off + length bytes) buf,
  ),
  take-append (before ++ bytes) after _ measured,
  drop-append (before ++ bytes) after _ measured,
)
  where
    before : List ℕ
    before = take off buf

    after : List ℕ
    after = drop (off + length bytes) buf

    measured : length (before ++ bytes) ≡ off + length bytes
    measured = omega (arith, length-append before bytes, length-take_le off buf (omega arith))

-- A read inside the block.
pub memread_lem :
    (buf : List ℕ) (off len : ℕ)
    → off + len ≤ length buf
    → (memread buf off len ≡ some (take len (drop off buf)))
      × (length (take len (drop off buf)) ≡ len)
unfolding memread
memread_lem buf off len h =
    (ground arith, length-take_le len (drop off buf) (omega (arith, length-drop off buf)))
