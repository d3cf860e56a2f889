-- ===== src/Regexp/Bounds/Dispatch.antt =====
-- One instruction keeps the indices in the subject.
use quickjs_rs.Base.{ℕ, Option, some, true, false, length, ◌==◌, not}
use quickjs_rs.Regexp.Opcode.{Opcode, decode, get_u8, get_u16, get_u32}
use quickjs_rs.Regexp.Chars.{is_line_terminator}
use quickjs_rs.Regexp.State.{Context, Regs, Step, address, lookahead, negative_lookahead}
use quickjs_rs.Regexp.Step.{test_char, canon, dispatch, step}
use quickjs_rs.Regexp.Bounds.{RegsInText, StepInText, Ensures, Ensures-then}
use quickjs_rs.Regexp.Bounds.Stack.{
  do_save-InText, do_save_reset-InText, push-InText, do_push_i32-InText, do_drop-InText,
  do_loop-InText, do_bne_char_pos-InText, do_split-InText, do_lookahead-InText, do_goto-InText,
  do_quantifier-InText,
}
use quickjs_rs.Regexp.Bounds.Subject.{
  with_char-InText, do_line_start-InText, do_line_end-InText, do_any-InText,
  do_word_boundary-InText, do_range-InText, do_range32-InText, do_prev-InText,
}
use quickjs_rs.Regexp.Bounds.Reference.{do_back_reference-InText}

module _ (ctx : Context) where
  abbrev len : ℕ
  len = length ctx.cbuf

  abbrev Good : Option Step → Type 0
  Good = Ensures (StepInText len)

  test_char-InText : (r : Regs) (val pc : ℕ) → RegsInText len r → Good (test_char ctx r val pc)
  unfolding test_char
  test_char-InText r val pc v = with_char-InText ctx r (λ c. some (val == canon ctx c)) pc v

  dispatch-InText : (op : Opcode) (r : Regs) → RegsInText len r → Good (dispatch ctx op r)
  unfolding dispatch
  dispatch-InText Opcode.matched r v = v
  dispatch-InText Opcode.char32 r v =
      Ensures-then (StepInText len) (get_u32 ctx.bc r.pc) _ λ val. test_char-InText r val _ v
  dispatch-InText Opcode.char r v =
      Ensures-then (StepInText len) (get_u16 ctx.bc r.pc) _ λ val. test_char-InText r val _ v
  dispatch-InText Opcode.split_goto_first r v = do_split-InText ctx false r v
  dispatch-InText Opcode.split_next_first r v = do_split-InText ctx true r v
  dispatch-InText Opcode.lookahead r v = do_lookahead-InText ctx lookahead r v
  dispatch-InText Opcode.negative_lookahead r v = do_lookahead-InText ctx negative_lookahead r v
  dispatch-InText Opcode.goto r v = do_goto-InText ctx r v
  dispatch-InText Opcode.line_start r v = do_line_start-InText ctx r v
  dispatch-InText Opcode.line_end r v = do_line_end-InText ctx r v
  dispatch-InText Opcode.dot r v = do_any-InText ctx (λ c. not (is_line_terminator c)) r v
  dispatch-InText Opcode.any r v = do_any-InText ctx (λ c. true) r v
  dispatch-InText Opcode.save_start r v = do_save-InText ctx 0 r v
  dispatch-InText Opcode.save_end r v = do_save-InText ctx 1 r v
  dispatch-InText Opcode.save_reset r v = do_save_reset-InText ctx r v
  dispatch-InText Opcode.push_i32 r v = do_push_i32-InText ctx r v
  dispatch-InText Opcode.drop r v = do_drop-InText ctx r v
  dispatch-InText Opcode.loop r v = do_loop-InText ctx r v
  dispatch-InText Opcode.push_char_pos r v = push-InText ctx (address ctx r.cptr) r.pc r v
  dispatch-InText Opcode.bne_char_pos r v = do_bne_char_pos-InText ctx r v
  dispatch-InText Opcode.word_boundary r v = do_word_boundary-InText ctx false r v
  dispatch-InText Opcode.not_word_boundary r v = do_word_boundary-InText ctx true r v
  dispatch-InText Opcode.back_reference r v = do_back_reference-InText ctx false r v
  dispatch-InText Opcode.backward_back_reference r v = do_back_reference-InText ctx true r v
  dispatch-InText Opcode.range r v = do_range-InText ctx r v
  dispatch-InText Opcode.range32 r v = do_range32-InText ctx r v
  dispatch-InText Opcode.prev r v = do_prev-InText ctx r v
  dispatch-InText Opcode.simple_greedy_quant r v = do_quantifier-InText ctx r v
  dispatch-InText Opcode.invalid r v = tt

  pub step-InText : (r : Regs) → RegsInText len r → Good (step ctx r)
  unfolding step
  step-InText r v = Ensures-then (StepInText len) (get_u8 ctx.bc r.pc) _ λ byte.
      Ensures-then (StepInText len) (decode byte) _
        λ opcode. dispatch-InText opcode _ (record { machine = v.machine; at = v.at })
