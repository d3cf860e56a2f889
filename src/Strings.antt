-- ===== src/Strings.antt =====
-- The string helpers of libquickjs-sys/embed/quickjs/cutils.c: `pstrcpy`, `pstrcat`, `strstart` and
-- `has_suffix`. A string is the list of the bytes from a pointer on, with a NUL in it, and a buffer
-- to write to is a block of bytes. `none` is an access behind the last byte of either.
pub mod Copy
pub mod Prefix
pub mod Suffix
pub mod Examples
use quickjs_rs.Base.{
  ℕ, zero, suc, ◌+◌, ◌-◌, ltb, leb, ◌==◌, if◌then◌else◌, Option, none, some, List, [], ◌∷◌, length,
  set, drop, Bool, true, false, ◌&&◌, ◌||◌, not,
}
use quickjs_rs.Base.Partial.{◌>>=◌}

-- A byte written into a block.
unfoldable pub store : List ℕ → ℕ → ℕ → Option (List ℕ)
store buf i v = if ltb i (length buf) then some (set buf i v) else none

-- The loop of `pstrcpy`, with `q` an index of the block and `last` that of the last byte of its
-- part: `c == 0 || q >= buf + buf_size - 1` ends it.
unfoldable pub copy_loop : List ℕ → List ℕ → ℕ → ℕ → Option (List ℕ)
unfolding store
copy_loop [] buf q last = none
copy_loop (c ∷ str) buf q last = elim (c == 0 || leb last q) [
  | true ↦ store buf q 0
  | false ↦ store buf q c >>= λ buf'. copy_loop str buf' (q + 1) last
]

-- `pstrcpy` to the `buf_size` bytes from `off` on.
unfoldable pub pstrcpy : List ℕ → ℕ → ℕ → List ℕ → Option (List ℕ)
unfolding copy_loop
pstrcpy buf off buf_size str =
    if buf_size == 0 then some buf else copy_loop str buf off (off + buf_size - 1)

-- `strlen`
unfoldable pub strlen : List ℕ → Option ℕ
strlen [] = none
strlen (c ∷ p) = elim (c == 0) [ true ↦ some 0 | false ↦ strlen p >>= λ n. some (n + 1) ]

unfoldable pub pstrcat : List ℕ → ℕ → List ℕ → Option (List ℕ)
unfolding pstrcpy strlen
pstrcat buf buf_size s =
    strlen buf >>= λ len. if ltb len buf_size then pstrcpy buf len (buf_size - len) s else some buf

-- `strstart`: `some none` is 0, and else the text behind the prefix is `*ptr`.
unfoldable pub strstart : List ℕ → List ℕ → Option (Option (List ℕ))
strstart p [] = none
strstart p (v ∷ q) = elim (v == 0) [
  | true ↦ some (some p)
  | false ↦ elim p [
    | [] ↦ none
    | c ∷ p' ↦ elim (c == v) [ true ↦ strstart p' q | false ↦ some none ]
  ]
]

-- `memcmp(p, q, n) == 0`
unfoldable pub same_bytes : ℕ → List ℕ → List ℕ → Option Bool
same_bytes zero p q = some true
same_bytes (suc n) [] q = none
same_bytes (suc n) (c ∷ p) [] = none
same_bytes (suc n) (c ∷ p) (d ∷ q) = elim (c == d) [ true ↦ same_bytes n p q | false ↦ some false ]

unfoldable pub has_suffix : List ℕ → List ℕ → Option Bool
unfolding strlen same_bytes
has_suffix str suffix = do
  len ← strlen str
  slen ← strlen suffix
  elim (leb slen len) [ false ↦ some false | true ↦ same_bytes slen (drop (len - slen) str) suffix ]
