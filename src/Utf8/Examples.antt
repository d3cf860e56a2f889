-- ===== src/Utf8/Examples.antt =====
-- Runs of the two functions, and the theorems at inputs.
use quickjs_rs.Base.{All}
use quickjs_rs.Base.{ℕ, ◌≤◌, ◌<◌, ◌≡◌, ◌≢◌, ◌↔◌, refl, arith, List, [], ◌∷◌, ◌++◌, length}
use quickjs_rs.Utf8.{
  unicode_to_utf8, unicode_from_utf8, cont_byte, lead_byte, trail_count, decode_trail,
}
use quickjs_rs.Utf8.{char, fault, invalid}
use quickjs_rs.Utf8.Bounds.{unicode_to_utf8_bounds, unicode_from_utf8-ne-fault}
use quickjs_rs.Utf8.Canonical.{decode_iff}

-- U+20AC, and the largest code that is encoded.
euro_bytes :
    (unicode_to_utf8 0x20ac ≡ 0xe2 ∷ 0x82 ∷ 0xac ∷ [])
    × (unicode_to_utf8 0x7fffffff ≡ 0xfd ∷ 0xbf ∷ 0xbf ∷ 0xbf ∷ 0xbf ∷ 0xbf ∷ [])
    × (unicode_to_utf8 0x80000000 ≡ [])
unfolding unicode_to_utf8 cont_byte lead_byte
euro_bytes = (refl, refl, refl)

-- An overlong form, a stray continuation byte, and a sequence cut by `max_len`.
refusals :
    (unicode_from_utf8 (0xc1 ∷ 0x81 ∷ []) 2 ≡ invalid)
    × (unicode_from_utf8 (0x80 ∷ []) 1 ≡ invalid)
    × (unicode_from_utf8 (0xe2 ∷ 0x82 ∷ 0xac ∷ []) 2 ≡ invalid)
    × (unicode_from_utf8 (0xe2 ∷ 0x82 ∷ []) 3 ≡ fault)
unfolding unicode_from_utf8 trail_count decode_trail
refusals = (refl, refl, refl, refl)

abbrev euro : List ℕ
euro = 0xe2 ∷ 0x82 ∷ 0xac ∷ 0x21 ∷ []

decode_iff_example : (unicode_from_utf8 euro 4 ≡ char 0x20ac (0x21 ∷ [])) ↔ (
    (0x20ac < 0x80000000)
    × (length (unicode_to_utf8 0x20ac) ≤ 4)
    × (euro ≡ unicode_to_utf8 0x20ac ++ (0x21 ∷ [])))
decode_iff_example = decode_iff euro 4 0x20ac (0x21 ∷ []) (omega arith)

unicode_to_utf8_bounds_example :
    (length (unicode_to_utf8 0x20ac) ≤ 6)
    × All (λ b. b < 256) (unicode_to_utf8 0x20ac)
    × (0x20ac < 0x80000000 → 1 ≤ length (unicode_to_utf8 0x20ac))
    × (0x80000000 ≤ 0x20ac → unicode_to_utf8 0x20ac ≡ [])
unicode_to_utf8_bounds_example = unicode_to_utf8_bounds 0x20ac

unicode_from_utf8-ne-fault_example : unicode_from_utf8 euro 4 ≢ fault
unicode_from_utf8-ne-fault_example = unicode_from_utf8-ne-fault euro 4 (omega arith) (omega arith)
