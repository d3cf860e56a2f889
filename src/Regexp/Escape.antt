-- ===== src/Regexp/Escape.antt =====
-- Escapes and numbers in the text of a regular expression or a string literal: `lre_parse_escape`
-- and `parse_digits` of libquickjs-sys/embed/quickjs/libregexp.c, `from_hex` of cutils.h. A pointer
-- into the text is the list of bytes from it on; a read behind its last byte is `fault`.
pub mod Reads
pub mod Kinds
pub mod Digits
pub mod Examples
use quickjs_rs.Base.{
  ℕ, zero, suc, ◌+◌, ◌-◌, ◌*◌, ◌^◌, ltb, leb, ◌==◌, if◌then◌else◌, not, Option, none, some, List,
  [], ◌∷◌, drop, Bool, true, false, ◌&&◌, ◌||◌, bit_and, bit_or, ◌<<<◌,
}
use quickjs_rs.Regexp.Chars.{is_high, is_low, from_surrogates}

-- `from_hex`; `none` is -1.
unfoldable pub from_hex : ℕ → Option ℕ
from_hex c =
    if leb b'0' c && leb c b'9'
    then some (c - b'0')
    else if leb b'A' c && leb c b'F'
    then some (c - b'A' + 10)
    else if leb b'a' c && leb c b'f'
    then some (c - b'a' + 10)
    else none

-- `is_digit`
unfoldable pub is_digit : ℕ → Bool
is_digit c = leb b'0' c && leb c b'9'

-- The return of -1, of -2, and of a code with the pointer behind the escape.
pub data Escape : Type 0 where
  malformed other fault : Escape
  char : ℕ → List ℕ → Escape

-- `*p`, and what is done with it.
unfoldable pub peek : List ℕ → (ℕ → Escape) → Escape
peek [] k = fault
peek (x ∷ p) k = k x

-- The loop in braces, up to `}`.
unfoldable pub hex_braces : List ℕ → ℕ → Escape
unfolding peek
hex_braces [] c = fault
hex_braces (d ∷ p) c = elim (from_hex d) [
  | none ↦ malformed
  | some h ↦ elim (ltb 0x10FFFF (bit_or (c <<< 4) h)) [
    | true ↦ malformed
    | false ↦ peek p λ x. elim (x == b'}') [
      | true ↦ char (bit_or (c <<< 4) h) (drop 1 p)
      | false ↦ hex_braces p (bit_or (c <<< 4) h)
    ]
  ]
]

-- A fixed number of digits, `left` of them still to come.
unfoldable pub hex_digits : ℕ → List ℕ → ℕ → Escape
hex_digits zero p c = char c p
hex_digits (suc left) [] c = fault
hex_digits (suc left) (d ∷ p) c = elim (from_hex d) [
  | none ↦ malformed
  | some h ↦ hex_digits left p (bit_or (c <<< 4) h)
]

-- The second half of a pair of escaped surrogates: without one, the first stands alone.
unfoldable pub low_half : ℕ → List ℕ → Escape → Escape
low_half c p (char c1 q) = if is_low c1 then char (from_surrogates c c1) q else char c p
low_half c p malformed = char c p
low_half c p other = char c p
low_half c p fault = fault

unfoldable pub escaped_pair : ℕ → ℕ → List ℕ → Escape
unfolding peek low_half
escaped_pair allow_utf16 c p = elim (is_high c && allow_utf16 == 2) [
  | false ↦ char c p
  | true ↦ peek p λ x. elim (x == b'\\') [
    | false ↦ char c p
    | true ↦
        peek (drop 1 p) λ y. elim (y == b'u') [
          | false ↦ char c p
          | true ↦ low_half c p (hex_digits 4 (drop 2 p) 0)
        ]
  ]
]

unfoldable pub after_digits : ℕ → Escape → Escape
unfolding escaped_pair
after_digits allow_utf16 (char c p) = escaped_pair allow_utf16 c p
after_digits allow_utf16 malformed = malformed
after_digits allow_utf16 other = other
after_digits allow_utf16 fault = fault

-- The escapes of `x` and `u`.
unfoldable pub hex_escape : ℕ → ℕ → List ℕ → Escape
unfolding peek after_digits
hex_escape allow_utf16 n p = peek p λ x. elim (x == b'{' && not (allow_utf16 == 0)) [
  | true ↦ hex_braces (drop 1 p) 0
  | false ↦ after_digits allow_utf16 (hex_digits n p 0)
]

-- `v = *p - '0'; if (v > 7)` on a `uint32_t`.
unfoldable pub octal_digit : ℕ → Bool
octal_digit x = leb b'0' x && leb x b'7'

-- The legacy octal escapes, from the first digit's value on.
unfoldable pub octal_escape : ℕ → List ℕ → Escape
unfolding peek octal_digit
octal_escape c p = peek p λ x. elim (octal_digit x) [
  | false ↦ char c p
  | true ↦ elim (leb 32 (bit_or (c <<< 3) (x - b'0'))) [
    | true ↦ char (bit_or (c <<< 3) (x - b'0')) (drop 1 p)
    | false ↦ peek (drop 1 p) λ y. elim (octal_digit y) [
      | false ↦ char (bit_or (c <<< 3) (x - b'0')) (drop 1 p)
      | true ↦ char (bit_or (bit_or (c <<< 3) (x - b'0') <<< 3) (y - b'0')) (drop 2 p)
    ]
  ]
]

unfoldable pub digit_escape : ℕ → ℕ → List ℕ → Escape
unfolding peek octal_escape
digit_escape allow_utf16 c p = elim (allow_utf16 == 2) [
  | true ↦ elim (c == 0) [
    | false ↦ malformed
    | true ↦ peek p λ x. if is_digit x then malformed else char 0 p
  ]
  | false ↦ octal_escape c p
]

-- The code of a letter that stands for a control character.
unfoldable pub control_code : ℕ → Option ℕ
control_code c =
    if c == b'b'
    then some 8
    else if c == b'f'
    then some 12
    else if c == b'n'
    then some 10
    else if c == b'r'
    then some 13
    else if c == b't'
    then some 9
    else if c == b'v'
    then some 11
    else none

-- The `switch` on the character behind the backslash.
unfoldable pub parse_kind : ℕ → ℕ → List ℕ → Escape
unfolding hex_escape digit_escape
parse_kind allow_utf16 c p = elim (control_code c) [
  | some code ↦ char code p
  | none ↦ elim (c == b'x') [
    | true ↦ hex_escape allow_utf16 2 p
    | false ↦ elim (c == b'u') [
      | true ↦ hex_escape allow_utf16 4 p
      | false ↦ elim (octal_digit c) [
        | true ↦ digit_escape allow_utf16 (c - b'0') p
        | false ↦ other
      ]
    ]
  ]
]

-- `lre_parse_escape`, with the pointer behind the backslash.
unfoldable pub lre_parse_escape : List ℕ → ℕ → Escape
unfolding parse_kind
lre_parse_escape [] allow_utf16 = fault
lre_parse_escape (c ∷ p) allow_utf16 = parse_kind allow_utf16 c p

-- The loop of `parse_digits`, with `v` so far: `none` is a read behind the text, `some none` the
-- return of -1.
unfoldable pub digits_loop : Bool → List ℕ → ℕ → Option (Option (ℕ × List ℕ))
digits_loop allow_overflow [] v = none
digits_loop allow_overflow (c ∷ p) v = elim (is_digit c) [
  | false ↦ some (some (v, c ∷ p))
  | true ↦ elim (leb (2 ^ 31 - 1) (v * 10 + c - b'0')) [
    | false ↦ digits_loop allow_overflow p (v * 10 + c - b'0')
    | true ↦ elim allow_overflow [
      | true ↦ digits_loop allow_overflow p (2 ^ 31 - 1)
      | false ↦ some none
    ]
  ]
]

unfoldable pub parse_digits : List ℕ → Bool → Option (Option (ℕ × List ℕ))
parse_digits p allow_overflow = digits_loop allow_overflow p 0
