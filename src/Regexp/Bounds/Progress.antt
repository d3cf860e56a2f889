-- ===== src/Regexp/Bounds/Progress.antt =====
-- An instruction whose operands are in order runs without undefined behaviour.
use quickjs_rs.Base.{
  ℕ, ◌+◌, ◌^◌, ◌≤◌, ◌<◌, ◌≡◌, refl, arith, Option, none, some, true, false, length, not, sym,
}
use quickjs_rs.Base.Partial.{bind_assoc}
use quickjs_rs.Regexp.Opcode.{Opcode, decode, get_u8, get_u16, get_u32}
use quickjs_rs.Regexp.Chars.{is_line_terminator}
use quickjs_rs.Regexp.State.{Context, Regs, address, lookahead, negative_lookahead}
use quickjs_rs.Regexp.Step.{dispatch, step}
use quickjs_rs.Regexp.Static.{opcode_at, length_at}
use quickjs_rs.Regexp.Bounds.{RegsInText, Ensures}
use quickjs_rs.Regexp.Bounds.Defined.{
  IsDefined, IsDefined-bind, get_u16-IsDefined, get_u32-IsDefined,
}
use quickjs_rs.Regexp.Bounds.Taking.{
  do_any-IsDefined, do_line_start-IsDefined, do_line_end-IsDefined, do_word_boundary-IsDefined,
  do_back_reference-IsDefined, do_prev-IsDefined,
}
use quickjs_rs.Regexp.Bounds.Handlers.{
  Operands, do_bne_char_pos-IsDefined, do_drop-IsDefined, do_goto-IsDefined, do_lookahead-IsDefined,
  do_loop-IsDefined, do_push_i32-IsDefined, do_quantifier-IsDefined, do_range-IsDefined,
  do_range32-IsDefined, do_save-IsDefined, do_save_reset-IsDefined, do_split-IsDefined,
  push-IsDefined, test_char-IsDefined,
}

-- There is a value, and it has the property.
abbrev pub Does {ℓ} : {A : Type ℓ} → (A → Type 0) → Option A → Type 0
Does P none = ⊥
Does P (some a) = P a

pub Does-join {ℓ} :
    {A : Type ℓ} (P : A → Type 0) (o : Option A) → Ensures P o → IsDefined o → Does P o
Does-join P none e d = absurd d
Does-join P (some a) e d = e

module _ (ctx : Context) where
  abbrev len : ℕ
  len = length ctx.cbuf

  -- The opcode at `pos`, with the program counter behind it.
  dispatch-IsDefined :
      (op : Opcode) (r : Regs) (pos size : ℕ)
      → r.pc ≡ pos + 1
      → length_at ctx.bc pos op ≡ some size
      → pos + size ≤ length ctx.bc
      → length ctx.bc < 2 ^ 31
      → RegsInText len r
      → Operands ctx op r
      → IsDefined (dispatch ctx op r)
  unfolding dispatch length_at
  dispatch-IsDefined Opcode.invalid r pos size e l fits short v o = absurd o
  dispatch-IsDefined Opcode.char r pos size e l fits short v o =
      let bytes : 3 ≡ size = cc in
      IsDefined-bind (get_u16 ctx.bc r.pc) _ (get_u16-IsDefined ctx.bc r.pc (omega arith))
        λ val e'. test_char-IsDefined ctx r val (r.pc + 2)
  dispatch-IsDefined Opcode.char32 r pos size e l fits short v o =
      let bytes : 5 ≡ size = cc in
      IsDefined-bind (get_u32 ctx.bc r.pc) _ (get_u32-IsDefined ctx.bc r.pc (omega arith))
        λ val e'. test_char-IsDefined ctx r val (r.pc + 4)
  dispatch-IsDefined Opcode.dot r pos size e l fits short v o =
      do_any-IsDefined ctx (λ c. not (is_line_terminator c)) r v.at
  dispatch-IsDefined Opcode.any r pos size e l fits short v o =
      do_any-IsDefined ctx (λ c. true) r v.at
  dispatch-IsDefined Opcode.line_start r pos size e l fits short v o =
      do_line_start-IsDefined ctx r v.at
  dispatch-IsDefined Opcode.line_end r pos size e l fits short v o =
      do_line_end-IsDefined ctx r v.at
  dispatch-IsDefined Opcode.goto r pos size e l fits short v o =
      let bytes : 5 ≡ size = cc in do_goto-IsDefined ctx r (omega arith) o
  dispatch-IsDefined Opcode.split_goto_first r pos size e l fits short v o =
      let bytes : 5 ≡ size = cc in do_split-IsDefined ctx false r (omega arith) o
  dispatch-IsDefined Opcode.split_next_first r pos size e l fits short v o =
      let bytes : 5 ≡ size = cc in do_split-IsDefined ctx true r (omega arith) o
  dispatch-IsDefined Opcode.matched r pos size e l fits short v o = tt
  dispatch-IsDefined Opcode.save_start r pos size e l fits short v o =
      let bytes : 2 ≡ size = cc in do_save-IsDefined ctx 0 r (omega arith) o
  dispatch-IsDefined Opcode.save_end r pos size e l fits short v o =
      let bytes : 2 ≡ size = cc in do_save-IsDefined ctx 1 r (omega arith) o
  dispatch-IsDefined Opcode.save_reset r pos size e l fits short v o =
      let bytes : 3 ≡ size = cc in do_save_reset-IsDefined ctx r (omega arith) o
  dispatch-IsDefined Opcode.loop r pos size e l fits short v o =
      let bytes : 5 ≡ size = cc in do_loop-IsDefined ctx r (omega arith) o.0 o.1 o.2
  dispatch-IsDefined Opcode.push_i32 r pos size e l fits short v o =
      let bytes : 5 ≡ size = cc in do_push_i32-IsDefined ctx r (omega arith) o
  dispatch-IsDefined Opcode.drop r pos size e l fits short v o = do_drop-IsDefined ctx r o
  dispatch-IsDefined Opcode.word_boundary r pos size e l fits short v o =
      do_word_boundary-IsDefined ctx false r v.at
  dispatch-IsDefined Opcode.not_word_boundary r pos size e l fits short v o =
      do_word_boundary-IsDefined ctx true r v.at
  dispatch-IsDefined Opcode.back_reference r pos size e l fits short v o =
      let bytes : 2 ≡ size = cc in do_back_reference-IsDefined ctx false r v (omega arith) o
  dispatch-IsDefined Opcode.backward_back_reference r pos size e l fits short v o =
      let bytes : 2 ≡ size = cc in do_back_reference-IsDefined ctx true r v (omega arith) o
  dispatch-IsDefined Opcode.range r pos size e l fits short v o =
      do_range-IsDefined ctx r pos size e fits short o l
  dispatch-IsDefined Opcode.range32 r pos size e l fits short v o =
      do_range32-IsDefined ctx r pos size e fits short o l
  dispatch-IsDefined Opcode.lookahead r pos size e l fits short v o =
      let bytes : 5 ≡ size = cc in do_lookahead-IsDefined ctx lookahead r (omega arith) o
  dispatch-IsDefined Opcode.negative_lookahead r pos size e l fits short v o =
      let bytes : 5 ≡ size = cc in do_lookahead-IsDefined ctx negative_lookahead r (omega arith) o
  dispatch-IsDefined Opcode.push_char_pos r pos size e l fits short v o =
      push-IsDefined ctx (address ctx r.cptr) r.pc r o
  dispatch-IsDefined Opcode.bne_char_pos r pos size e l fits short v o =
      let bytes : 5 ≡ size = cc in do_bne_char_pos-IsDefined ctx r (omega arith) o.0 o.1 o.2
  dispatch-IsDefined Opcode.prev r pos size e l fits short v o = do_prev-IsDefined ctx r v.at
  dispatch-IsDefined Opcode.simple_greedy_quant r pos size e l fits short v o =
      let bytes : 17 ≡ size = cc in do_quantifier-IsDefined ctx r (omega arith) o

  pub step-IsDefined :
      (r : Regs) (op : Opcode) (size : ℕ)
      → RegsInText len r
      → opcode_at ctx.bc r.pc ≡ some op
      → length_at ctx.bc r.pc op ≡ some size
      → r.pc + size ≤ length ctx.bc
      → length ctx.bc < 2 ^ 31
      → Operands ctx op (record r { pc = r.pc + 1 })
      → IsDefined (step ctx r)
  unfolding step opcode_at
  step-IsDefined r op size v o l fits short operands =
      rw
        (
          sym (
              bind_assoc (get_u8 ctx.bc r.pc) decode
                (λ x. dispatch ctx x (record r { pc = r.pc + 1 }))),
          step,
        )
        (rw o (
          dispatch-IsDefined op (record r { pc = r.pc + 1 }) r.pc size refl l fits short
            (record { machine = v.machine; at = v.at }) operands))
