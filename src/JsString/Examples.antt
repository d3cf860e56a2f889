-- ===== src/JsString/Examples.antt =====
-- Strings compared and read: tests, and the theorems at concrete inputs.
use quickjs_rs.Base.{◌<◌, ◌^◌, ◌≡◌, ◌↔◌, refl, some, none, [], ◌∷◌, true, false}
use quickjs_rs.Base.Int.{pos, negsuc}
use quickjs_rs.JsString.{
  JsString, js_string_compare, js_string_memcmp, memcmp16, memcmp16_8, neg, is_zero, is_num_string,
  num_loop, is_num, hash_string, hash_units,
}
use quickjs_rs.JsString.Order.{Yields, Compared, js_string_compare-Compared}
use quickjs_rs.JsString.Numbers.{IsNumeral, is_num_string_iff}

abbrev ab : JsString
ab = record { is_wide_char = false; units = 97 ∷ 98 ∷ [] }

abbrev a_wide : JsString
a_wide = record { is_wide_char = true; units = 97 ∷ 0x1234 ∷ [] }

abbrev forty_two : JsString
forty_two = record { is_wide_char = false; units = 52 ∷ 50 ∷ [] }

compared :
    (js_string_compare ab ab ≡ some (pos 0))
    × (js_string_compare ab a_wide ≡ some (negsuc 4561))
    × (js_string_compare a_wide ab ≡ some (pos 4562))
unfolding js_string_compare js_string_memcmp memcmp16 memcmp16_8 neg is_zero
compared = (refl, refl, refl)

numbers :
    (is_num_string forty_two ≡ some 42)
    × (is_num_string (record forty_two { units = 48 ∷ 50 ∷ [] }) ≡ none)
    × (is_num_string ab ≡ none)
unfolding is_num_string num_loop is_num
numbers = (refl, refl, refl)

hashed : hash_string ab 1 ≡ 94778
unfolding hash_string hash_units
hashed = refl

js_string_compare-Compared_example :
    Yields (Compared (97 ∷ 98 ∷ []) (97 ∷ 0x1234 ∷ [])) (js_string_compare ab a_wide)
js_string_compare-Compared_example = js_string_compare-Compared ab a_wide

is_num_string_iff_example :
    (is_num_string forty_two ≡ some 42) ↔ (IsNumeral (52 ∷ 50 ∷ []) 42 × (42 < 2 ^ 32))
is_num_string_iff_example = is_num_string_iff forty_two 42
