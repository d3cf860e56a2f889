-- ===== src/Regexp/Examples.antt =====
-- Bytecode that runs: tests.
use quickjs_rs.Base.{ℕ, List, [], ◌∷◌, some, Bool, true, ◌≡◌, refl}
use quickjs_rs.Regexp.Opcode.{decode, get_u8, get_u16, get_u32, jump}
use quickjs_rs.Regexp.Chars.{get_char, prev_char}
use quickjs_rs.Regexp.State.{push_state}
use quickjs_rs.Regexp.Step.{step}
use quickjs_rs.Regexp.Exec.{
  lre_exec, go_backward, run, recurse, count_matches, quantified, unwind, found, not_found,
}

abbrev pub same_case : ℕ → Bool → ℕ
same_case c utf16 = c

abbrev pub always : ℕ → Bool
always size = true

-- /a*b/ without its search prefix: save_start 0, a* as a quantifier of one character, b,
-- save_end 0, match.
abbrev pub as_then_b : List ℕ
as_then_b =
    0 ∷ 1 ∷ 0 ∷ 0 ∷ 0 ∷ 0 ∷ 0 ∷ 11 ∷ 0 ∷ 28 ∷ 4 ∷ 0 ∷ 0 ∷ 0 ∷ 0 ∷ 0 ∷ 0 ∷ 0 ∷ 255 ∷ 255 ∷ 255 ∷ 127
    ∷ 1 ∷ 0 ∷ 0 ∷ 0 ∷ 1 ∷ 97 ∷ 0 ∷ 10 ∷ 1 ∷ 98 ∷ 0 ∷ 12 ∷ 0 ∷ 10 ∷ []

-- /(?:ab|a)b/: a split, whose first branch fails on "ab".
abbrev split_ab : List ℕ
split_ab =
    0 ∷ 1 ∷ 0 ∷ 0 ∷ 0 ∷ 0 ∷ 0 ∷ 11 ∷ 0 ∷ 9 ∷ 11 ∷ 0 ∷ 0 ∷ 0 ∷ 1 ∷ 97 ∷ 0 ∷ 1 ∷ 98 ∷ 0 ∷ 7 ∷ 3 ∷ 0
    ∷ 0 ∷ 0 ∷ 1 ∷ 97 ∷ 0 ∷ 1 ∷ 98 ∷ 0 ∷ 12 ∷ 0 ∷ 10 ∷ []

aab :
    lre_exec 40 same_case always as_then_b (97 ∷ 97 ∷ 98 ∷ []) 4096 0 0
    ≡ some (found (some 0 ∷ some 3 ∷ []))
unfolding lre_exec run recurse count_matches quantified unwind step push_state get_u8 get_u16
    get_u32 decode jump get_char go_backward prev_char
aab = refl

aac : lre_exec 40 same_case always as_then_b (97 ∷ 97 ∷ 99 ∷ []) 4096 0 0 ≡ some not_found
unfolding lre_exec run recurse count_matches quantified unwind step push_state get_u8 get_u16
    get_u32 decode jump get_char go_backward prev_char
aac = refl

ab_split :
    lre_exec 40 same_case always split_ab (97 ∷ 98 ∷ []) 4096 0 0
    ≡ some (found (some 0 ∷ some 2 ∷ []))
unfolding lre_exec run recurse count_matches quantified unwind step push_state get_u8 get_u16
    get_u32 decode jump get_char go_backward prev_char
ab_split = refl
