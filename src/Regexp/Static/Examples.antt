-- ===== src/Regexp/Static/Examples.antt =====
-- The passes on small pieces of bytecode, and the theorems at instructions of /a*b/.
use quickjs_rs.Base.{ℕ, ◌+◌, ◌≡◌, ◌≢◌, refl, arith, List, [], ◌∷◌, take, drop, true}
use quickjs_rs.Regexp.Opcode
use quickjs_rs.Regexp.Opcode.{decode, get_u8, get_u16}
use quickjs_rs.Regexp.State.{Context, Regs}
use quickjs_rs.Regexp.Step.{step}
use quickjs_rs.Regexp.Exec.{start_context, start_regs}
use quickjs_rs.Regexp.Examples.{as_then_b, same_case, always}
use quickjs_rs.Regexp.Static
use quickjs_rs.Regexp.Static.{
  done, returned, compute_stack_size, re_is_simple_quantifier, re_check_advance, depends, sometimes,
  scan, opcode_at, length_at, visit_sizes, visit_simple, visit_advance, simple_chars,
}
use quickjs_rs.Regexp.Static.{Sizes, scan_all, visit_sizes, out_of_fuel}
use quickjs_rs.Regexp.Static.Ends.{scan_all-ne-out_of_fuel}
use quickjs_rs.Regexp.Bounds.{RegsInText}
use quickjs_rs.Regexp.Bounds.Progress.{Does}
use quickjs_rs.Regexp.Exec.{run}
use quickjs_rs.Regexp.Static.Body.{Code, ended, instruction}
use quickjs_rs.Regexp.Static.Run.{TookBody, run-TookBody}
use quickjs_rs.Regexp.Static.Simple.{Took, step-Took}

-- push_i32 2, push_char_pos, drop, match, behind a header.
abbrev pushes : List ℕ
pushes = 0 ∷ 0 ∷ 0 ∷ 0 ∷ 0 ∷ 0 ∷ 0 ∷ 15 ∷ 2 ∷ 0 ∷ 0 ∷ 0 ∷ 25 ∷ 16 ∷ 10 ∷ []

sizes_run : compute_stack_size pushes ≡ done (record { stack_size = 1; stack_size_max = 2 })
unfolding compute_stack_size scan opcode_at length_at decode get_u8
sizes_run = refl

-- char, line_end, range with one interval; and a goto.
simple_run :
    (re_is_simple_quantifier (1 ∷ 97 ∷ 0 ∷ 6 ∷ 21 ∷ 1 ∷ 0 ∷ 97 ∷ 0 ∷ 99 ∷ 0 ∷ []) ≡ done 2)
    × (re_is_simple_quantifier (7 ∷ 0 ∷ 0 ∷ 0 ∷ 0 ∷ []) ≡ returned)
unfolding re_is_simple_quantifier scan opcode_at length_at decode get_u8 get_u16
simple_run = (refl, refl)

-- save_start 1, char, save_end 1; with a back reference behind it; and a drop.
advance_run :
    (re_check_advance (11 ∷ 1 ∷ 1 ∷ 97 ∷ 0 ∷ 12 ∷ 1 ∷ []) ≡ Static.always)
    × (re_check_advance (11 ∷ 1 ∷ 1 ∷ 97 ∷ 0 ∷ 12 ∷ 1 ∷ 19 ∷ 1 ∷ []) ≡ depends)
    × (re_check_advance (16 ∷ []) ≡ sometimes)
unfolding re_check_advance scan opcode_at length_at decode get_u8
advance_run = (refl, refl, refl)

abbrev ctx : Context
ctx = start_context same_case always as_then_b (97 ∷ 97 ∷ 98 ∷ []) 4096 0 0 1

abbrev at_char : Regs
at_char = record (start_regs 1 0 0) { pc = 26 }

at_char-InText : RegsInText 3 at_char
unfolding start_regs
at_char-InText = record {
  machine = record { captures = (tt, (tt, tt)); saved = tt };
  at = omega arith;
}

step-Took_example : Does (Took ctx 1 (26 + 3) at_char) (step ctx at_char)
unfolding start_context start_regs opcode_at decode get_u8 simple_chars length_at
step-Took_example =
    step-Took ctx at_char Opcode.char 1 3 at_char-InText refl refl refl (omega arith) (omega arith)
      tt

-- The body of a* in /a*b/, in the call that the quantifier makes for it.
abbrev body : List ℕ
body = 1 ∷ 97 ∷ 0 ∷ []

body-Code : Code body 0
unfolding opcode_at length_at decode get_u8
body-Code = instruction {len = 3} {op = Opcode.char} refl refl tt (ended refl)

run-TookBody_example : TookBody ctx 1 at_char (run 5 ctx true at_char)
unfolding start_context start_regs re_is_simple_quantifier scan opcode_at length_at decode get_u8
run-TookBody_example =
    run-TookBody ctx (take 26 as_then_b) body (drop 30 as_then_b) refl (omega arith) 1 5 at_char
      body-Code refl at_char-InText refl (omega arith)

-- save_end 0 of /a*b/, with one capture.
abbrev at_save : Regs
at_save = record at_char { pc = 33; cptr = 3 }

abbrev no_sizes : Sizes
no_sizes = record { stack_size = 0; stack_size_max = 0 }

scan_all-ne-out_of_fuel_example : scan_all pushes (visit_sizes pushes) no_sizes ≢ out_of_fuel
scan_all-ne-out_of_fuel_example = scan_all-ne-out_of_fuel pushes (visit_sizes pushes) no_sizes
