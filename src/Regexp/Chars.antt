-- ===== src/Regexp/Chars.antt =====
-- The macros that read the subject. A pointer into it is an index of its code units, of 8 or 16
-- bits as `cbuf_type` says (0: 8 bits; 1: 16 bits; 2: UTF-16). `none` is a read out of it.
use quickjs_rs.Base.{ℕ, ◌+◌, ◌-◌, ltb, leb, ◌==◌, if◌then◌else◌, Option, some}
use quickjs_rs.Base.{List, get_elem?, Bool, true, false, ◌&&◌, ◌||◌, bit_and, bit_or, ◌<<<◌}
use quickjs_rs.Base.Partial.{◌>>=◌, ◌>>◌, check}

unfoldable pub is_high : ℕ → Bool
is_high c = leb 0xd800 c && ltb c 0xdc00

unfoldable pub is_low : ℕ → Bool
is_low c = leb 0xdc00 c && ltb c 0xe000

unfoldable pub from_surrogates : ℕ → ℕ → ℕ
from_surrogates hi lo = bit_or (bit_and hi 0x3ff <<< 10) (bit_and lo 0x3ff) + 0x10000

-- `c == '\n' || c == '\r' || c == CP_LS || c == CP_PS`
unfoldable pub is_line_terminator : ℕ → Bool
is_line_terminator c = c == 10 || c == 13 || c == 0x2028 || c == 0x2029

unfoldable pub is_word_char : ℕ → Bool
is_word_char c =
    (leb b'0' c && leb c b'9')
    || (leb b'a' c && leb c b'z')
    || (leb b'A' c && leb c b'Z')
    || c == b'_'

-- The second half of a pair of surrogates, read where the first half and `cbuf_type` call for it:
-- the code and the index that go with it, or else those of the first unit alone.
unfoldable pub pair_with : List ℕ → Bool → ℕ → (ℕ → Bool) → (ℕ → ℕ × ℕ) → ℕ × ℕ → Option (ℕ × ℕ)
pair_with cbuf false at fits joined alone = some alone
pair_with cbuf true at fits joined alone = do
  c1 ← get_elem? cbuf at
  some (if fits c1 then joined c1 else alone)

module _ (cbuf_type : ℕ) (cbuf : List ℕ) where
  -- `GET_CHAR`: the code at `cptr`, and the index behind it.
  unfoldable pub get_char : ℕ → ℕ → Option (ℕ × ℕ)
  unfolding is_high is_low from_surrogates pair_with
  get_char cbuf_end cptr = do
    c ← get_elem? cbuf cptr
    pair_with cbuf (is_high c && (cbuf_type == 2 && ltb (cptr + 1) cbuf_end)) (cptr + 1) is_low
        (λ c1. (from_surrogates c c1, cptr + 2)) (c, cptr + 1)

  -- `PEEK_CHAR`
  unfoldable pub peek_char : ℕ → ℕ → Option ℕ
  unfolding get_char
  peek_char cbuf_end cptr = get_char cbuf_end cptr >>= λ r. some r.0

  -- `GET_PREV_CHAR`: the code before `cptr`, and its index.
  unfoldable pub get_prev_char : ℕ → ℕ → Option (ℕ × ℕ)
  unfolding is_high is_low from_surrogates pair_with
  get_prev_char cbuf_start cptr = do
    check (ltb 0 cptr)
    c ← get_elem? cbuf (cptr - 1)
    pair_with cbuf (is_low c && (cbuf_type == 2 && ltb cbuf_start (cptr - 1))) (cptr - 2) is_high
        (λ c1. (from_surrogates c1 c, cptr - 2)) (c, cptr - 1)

  -- `PEEK_PREV_CHAR`; its test `cptr - 4 >= cbuf_start` is in bytes.
  unfoldable pub peek_prev_char : ℕ → ℕ → Option ℕ
  unfolding is_high is_low from_surrogates pair_with
  peek_prev_char cbuf_start cptr = do
    check (ltb 0 cptr)
    c ← get_elem? cbuf (cptr - 1)
    r ←
        pair_with cbuf (is_low c && (cbuf_type == 2 && leb (cbuf_start + 2) cptr)) (cptr - 2)
          is_high (λ c1. (from_surrogates c1 c, cptr - 2)) (c, cptr - 1)
    some r.0

  -- `PREV_CHAR`; it reads only a UTF-16 subject, and wants the index alone. The macro has no test: a
  -- pointer to before the subject's array is undefined behaviour, which is `none` here.
  unfoldable pub prev_char : ℕ → ℕ → Option ℕ
  unfolding get_prev_char
  prev_char cbuf_start cptr = do
    check (ltb 0 cptr)
    elim (cbuf_type == 2) [
      | true ↦ get_prev_char cbuf_start cptr >>= λ r. some r.1
      | false ↦ some (cptr - 1)
    ]
