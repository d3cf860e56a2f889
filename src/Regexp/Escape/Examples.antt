-- ===== src/Regexp/Escape/Examples.antt =====
-- Escapes and numbers that are read, and the theorems at them.
use quickjs_rs.Base.{
  ℕ, ◌≡◌, refl, min, leb, not, ◌&&◌, if◌then◌else◌, [], ◌∷◌, List, some, none, true, false, inl,
  inr,
}
use quickjs_rs.Regexp.Escape.{
  lre_parse_escape, parse_digits, char, malformed, other, peek, hex_braces, hex_digits, from_hex,
  digits_loop, is_digit, control_code,
}
use quickjs_rs.Regexp.Chars.{is_high, is_low, from_surrogates}
use quickjs_rs.Regexp.Escape.Reads.{Terminated, InBounds}
use quickjs_rs.Regexp.Escape.Kinds.{lre_parse_escape-InBounds}
use quickjs_rs.Regexp.Escape.Digits.{parse_digits_value, number, behind, limit}

-- "u{1f600}" and "2147483650,"
abbrev braces : List ℕ
braces = b'u' ∷ b'{' ∷ b'1' ∷ b'f' ∷ b'6' ∷ b'0' ∷ b'0' ∷ b'}' ∷ 0 ∷ []

abbrev long_number : List ℕ
long_number = b'2' ∷ b'1' ∷ b'4' ∷ b'7' ∷ b'4' ∷ b'8' ∷ b'3' ∷ b'6' ∷ b'5' ∷ b'0' ∷ b',' ∷ 0 ∷ []

-- A pair of escaped surrogates is one character in a Unicode expression.
abbrev pair : List ℕ
pair = b'u' ∷ b'd' ∷ b'8' ∷ b'3' ∷ b'd' ∷ b'\\' ∷ b'u' ∷ b'd' ∷ b'e' ∷ b'0' ∷ b'0' ∷ 0 ∷ []

escapes :
    (lre_parse_escape braces 1 ≡ char 0x1f600 (0 ∷ []))
    × (lre_parse_escape pair 2 ≡ char 0x1f600 (0 ∷ []))
    × (lre_parse_escape (b'0' ∷ b'1' ∷ 0 ∷ []) 2 ≡ malformed)
    × (lre_parse_escape (b'1' ∷ b'0' ∷ b'1' ∷ 0 ∷ []) 0 ≡ char 65 (0 ∷ []))
    × (lre_parse_escape (b'q' ∷ 0 ∷ []) 0 ≡ other)
unfolding lre_parse_escape peek hex_braces hex_digits from_hex control_code is_high is_low
    from_surrogates is_digit
escapes = (refl, refl, refl, refl, refl)

numbers :
    (parse_digits long_number true ≡ some (some (2147483647, b',' ∷ 0 ∷ [])))
    × (parse_digits long_number false ≡ some none)
unfolding parse_digits digits_loop is_digit
numbers = (refl, refl)

braces-Terminated : Terminated braces
braces-Terminated = inr (inr (inr (inr (inr (inr (inr (inr (inl refl))))))))

lre_parse_escape-InBounds_example : InBounds (lre_parse_escape braces 1)
lre_parse_escape-InBounds_example = lre_parse_escape-InBounds braces 1 braces-Terminated

parse_digits_value_example :
    parse_digits (b'4' ∷ b'2' ∷ 0 ∷ []) false
    ≡ some (
        if leb limit (number (b'4' ∷ b'2' ∷ 0 ∷ []) 0) && not false
        then none
        else some (min (number (b'4' ∷ b'2' ∷ 0 ∷ []) 0) limit, behind (b'4' ∷ b'2' ∷ 0 ∷ [])))
parse_digits_value_example = parse_digits_value (b'4' ∷ b'2' ∷ 0 ∷ []) false (inr (inr (inl refl)))
