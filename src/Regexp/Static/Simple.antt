-- ===== src/Regexp/Static/Simple.antt =====
-- The instructions that `re_is_simple_quantifier` counts, when they run.
use quickjs_rs.Base.{
  ℕ, zero, suc, ◌+◌, ◌*◌, ◌^◌, ◌≤◌, ◌<◌, ◌≡◌, refl, arith, leb, ◌==◌, Option, none, some, length,
  Bool, true, false, not, xor, inl, inr, Bool-cases, if_cases, sym,
}
use quickjs_rs.Base.Partial.{◌>>=◌, bind_assoc}
use quickjs_rs.Regexp.Opcode.{Opcode, decode, get_u8, get_u16, get_u32}
use quickjs_rs.Regexp.Chars.{get_char, is_line_terminator}
use quickjs_rs.Regexp.State.{Context, Regs, Step, next, reject}
use quickjs_rs.Regexp.Step.{
  with_char, test_char, at_line, do_line_start, do_line_end, do_any, do_word_boundary, word_before,
  word_at, do_range, do_range32, dispatch, step, canon,
}
use quickjs_rs.Regexp.Bounds.{Ensures, Ensures-bind, Ensures-then}
use quickjs_rs.Regexp.Bounds.{RegsInText}
use quickjs_rs.Regexp.Bounds.Handlers.{Operands}
use quickjs_rs.Regexp.Bounds.Progress.{Does, Does-join, step-IsDefined}
use quickjs_rs.Regexp.Static.{opcode_at, length_at, simple_chars}

-- The number that a range's length comes from.
bind_value :
    (m : Option ℕ) (f : ℕ → ℕ) (a b : ℕ) → m ≡ some a → (m >>= λ x. some (f x)) ≡ some b → f a ≡ b
bind_value none f a b e h = absurd (let no_value : ⊥ = cc in no_value)
bind_value (some x) f a b e h =
    let same : x ≡ a = cc in rw (sym same) (let value : f x ≡ b = cc in value)

module _ (ctx : Context) where
  abbrev len : ℕ
  len = length ctx.cbuf

  -- So many characters stand between two indices.
  abbrev pub Chars : ℕ → ℕ → ℕ → Type 0
  Chars zero from to = to ≡ from
  Chars (suc n) from to =
      (c : ℕ) × (mid : ℕ) × (get_char ctx.cbuf_type ctx.cbuf len from ≡ some (c, mid))
      × Chars n mid to

  -- An instruction takes `n` characters and goes on at `target`, or does not match; the captures,
  -- the stack and the saved states stay.
  abbrev pub Took : ℕ → ℕ → Regs → Step → Type 0
  Took n target r (next r') =
      (r'.machine ≡ r.machine)
      × (r'.stack_len ≡ r.stack_len)
      × (r'.pc ≡ target)
      × Chars n r.cptr r'.cptr
  Took n target r (reject m) = m ≡ r.machine
  Took n target r _ = ⊥

  with_char-Took :
      (r : Regs) (test : ℕ → Option Bool) (pc target : ℕ)
      → pc ≡ target
      → Ensures (Took 1 target r) (with_char ctx r test pc)
  unfolding with_char
  with_char-Took r test pc target e = elim (Bool-cases (leb len r.cptr)) [
    | inl ends ↦ rw (ends, with_char) refl
    | inr more ↦
        rw (more, with_char)
          (Ensures-bind (Took 1 target r) (get_char ctx.cbuf_type ctx.cbuf len r.cptr) _ λ x read.
            Ensures-then (Took 1 target r) (test x.0) _ λ ok.
              if_cases (Took 1 target r) ok (λ yes. (refl, refl, e, (x.0, x.1, read, refl)))
                (λ no_match. refl))
  ]

  do_any-Took :
      (ok : ℕ → Bool) (r : Regs) (target : ℕ)
      → r.pc ≡ target
      → Ensures (Took 1 target r) (do_any ctx ok r)
  unfolding do_any
  do_any-Took ok r target e = elim (Bool-cases (r.cptr == len)) [
    | inl ends ↦ rw (ends, do_any) refl
    | inr more ↦
        rw (more, do_any)
          (Ensures-bind (Took 1 target r) (get_char ctx.cbuf_type ctx.cbuf len r.cptr) _ λ x read.
            if_cases (Took 1 target r) (ok x.0) (λ yes. (refl, refl, e, (x.0, x.1, read, refl)))
              (λ no_match. refl))
  ]

  at_line-Took :
      (r : Regs) (char : Option ℕ) (target : ℕ)
      → r.pc ≡ target
      → Ensures (Took 0 target r) (at_line ctx r char)
  unfolding at_line
  at_line-Took r char target e = elim (Bool-cases ctx.multi_line) [
    | inr single ↦ rw (single, at_line) refl
    | inl multi ↦
        rw (multi, at_line)
          (Ensures-then (Took 0 target r) char _ λ c.
            if_cases (Took 0 target r) (is_line_terminator c) (λ yes. (refl, refl, e, refl))
              (λ no_match. refl))
  ]

  do_line_start-Took :
      (r : Regs) (target : ℕ) → r.pc ≡ target → Ensures (Took 0 target r) (do_line_start ctx r)
  unfolding do_line_start
  do_line_start-Took r target e = elim (Bool-cases (r.cptr == 0)) [
    | inl start ↦ rw (start, do_line_start) (refl, refl, e, refl)
    | inr inner ↦ rw (inner, do_line_start) (at_line-Took r _ target e)
  ]

  do_line_end-Took :
      (r : Regs) (target : ℕ) → r.pc ≡ target → Ensures (Took 0 target r) (do_line_end ctx r)
  unfolding do_line_end
  do_line_end-Took r target e = elim (Bool-cases (r.cptr == len)) [
    | inl ends ↦ rw (ends, do_line_end) (refl, refl, e, refl)
    | inr inner ↦ rw (inner, do_line_end) (at_line-Took r _ target e)
  ]

  do_word_boundary-Took :
      (negated : Bool) (r : Regs) (target : ℕ)
      → r.pc ≡ target
      → Ensures (Took 0 target r) (do_word_boundary ctx negated r)
  unfolding do_word_boundary
  do_word_boundary-Took negated r target e =
      Ensures-then (Took 0 target r) (word_before ctx r) _ λ v1.
        Ensures-then (Took 0 target r) (word_at ctx r) _ λ v2.
          if_cases (Took 0 target r) (xor (xor v1 v2) (not negated)) (λ stop. refl)
            (λ go. (refl, refl, e, refl))

  test_char-Took :
      (r : Regs) (val pc target : ℕ)
      → pc ≡ target
      → Ensures (Took 1 target r) (test_char ctx r val pc)
  unfolding test_char
  test_char-Took r val pc target e = with_char-Took r (λ c. some (val == canon ctx c)) pc target e

  do_range-Took :
      (r : Regs) (pos size : ℕ)
      → r.pc ≡ pos + 1
      → (get_u16 ctx.bc (pos + 1) >>= λ val. some (3 + val * 4)) ≡ some size
      → Ensures (Took 1 (pos + size) r) (do_range ctx r)
  unfolding do_range
  do_range-Took r pos size e l =
      Ensures-bind (Took 1 (pos + size) r) (get_u16 ctx.bc r.pc) _ λ count read.
        let there : get_u16 ctx.bc (pos + 1) ≡ some count = rw (sym e) read in
        with_char-Took r _ _ (pos + size) (
          omega (
            arith,
            e,
            bind_value (get_u16 ctx.bc (pos + 1)) (λ val. 3 + val * 4) count size there l,
          ))

  do_range32-Took :
      (r : Regs) (pos size : ℕ)
      → r.pc ≡ pos + 1
      → (get_u16 ctx.bc (pos + 1) >>= λ val. some (3 + val * 8)) ≡ some size
      → Ensures (Took 1 (pos + size) r) (do_range32 ctx r)
  unfolding do_range32
  do_range32-Took r pos size e l =
      Ensures-bind (Took 1 (pos + size) r) (get_u16 ctx.bc r.pc) _ λ count read.
        let there : get_u16 ctx.bc (pos + 1) ≡ some count = rw (sym e) read in
        with_char-Took r _ _ (pos + size) (
          omega (
            arith,
            e,
            bind_value (get_u16 ctx.bc (pos + 1)) (λ val. 3 + val * 8) count size there l,
          ))

  -- An instruction at `pos`, with the program counter behind its opcode.
  dispatch-Took :
      (op : Opcode) (r : Regs) (pos n size : ℕ)
      → r.pc ≡ pos + 1
      → simple_chars op ≡ some n
      → length_at ctx.bc pos op ≡ some size
      → Ensures (Took n (pos + size) r) (dispatch ctx op r)
  unfolding dispatch simple_chars length_at
  dispatch-Took Opcode.invalid r pos n size e s l = absurd (let not_simple : ⊥ = cc in not_simple)
  dispatch-Took Opcode.char r pos n size e s l =
      let one : 1 ≡ n = cc in
      let bytes : 3 ≡ size = cc in
      rw (sym one) (
        Ensures-then (Took 1 (pos + size) r) (get_u16 ctx.bc r.pc) _
          λ val. test_char-Took r val (r.pc + 2) (pos + size) (omega (arith, e, bytes)))
  dispatch-Took Opcode.char32 r pos n size e s l =
      let one : 1 ≡ n = cc in
      let bytes : 5 ≡ size = cc in
      rw (sym one) (
        Ensures-then (Took 1 (pos + size) r) (get_u32 ctx.bc r.pc) _
          λ val. test_char-Took r val (r.pc + 4) (pos + size) (omega (arith, e, bytes)))
  dispatch-Took Opcode.dot r pos n size e s l =
      let one : 1 ≡ n = cc in
      let bytes : 1 ≡ size = cc in
      rw (sym one)
        (do_any-Took (λ c. not (is_line_terminator c)) r (pos + size) (omega (arith, e, bytes)))
  dispatch-Took Opcode.any r pos n size e s l =
      let one : 1 ≡ n = cc in
      let bytes : 1 ≡ size = cc in
      rw (sym one) (do_any-Took (λ c. true) r (pos + size) (omega (arith, e, bytes)))
  dispatch-Took Opcode.line_start r pos n size e s l =
      let nothing : 0 ≡ n = cc in
      let bytes : 1 ≡ size = cc in
      rw (sym nothing) (do_line_start-Took r (pos + size) (omega (arith, e, bytes)))
  dispatch-Took Opcode.line_end r pos n size e s l =
      let nothing : 0 ≡ n = cc in
      let bytes : 1 ≡ size = cc in
      rw (sym nothing) (do_line_end-Took r (pos + size) (omega (arith, e, bytes)))
  dispatch-Took Opcode.goto r pos n size e s l = absurd (let not_simple : ⊥ = cc in not_simple)
  dispatch-Took Opcode.split_goto_first r pos n size e s l =
      absurd (let not_simple : ⊥ = cc in not_simple)
  dispatch-Took Opcode.split_next_first r pos n size e s l =
      absurd (let not_simple : ⊥ = cc in not_simple)
  dispatch-Took Opcode.matched r pos n size e s l = absurd (let not_simple : ⊥ = cc in not_simple)
  dispatch-Took Opcode.save_start r pos n size e s l =
      absurd (let not_simple : ⊥ = cc in not_simple)
  dispatch-Took Opcode.save_end r pos n size e s l = absurd (let not_simple : ⊥ = cc in not_simple)
  dispatch-Took Opcode.save_reset r pos n size e s l =
      absurd (let not_simple : ⊥ = cc in not_simple)
  dispatch-Took Opcode.loop r pos n size e s l = absurd (let not_simple : ⊥ = cc in not_simple)
  dispatch-Took Opcode.push_i32 r pos n size e s l = absurd (let not_simple : ⊥ = cc in not_simple)
  dispatch-Took Opcode.drop r pos n size e s l = absurd (let not_simple : ⊥ = cc in not_simple)
  dispatch-Took Opcode.word_boundary r pos n size e s l =
      let nothing : 0 ≡ n = cc in
      let bytes : 1 ≡ size = cc in
      rw (sym nothing) (do_word_boundary-Took false r (pos + size) (omega (arith, e, bytes)))
  dispatch-Took Opcode.not_word_boundary r pos n size e s l =
      let nothing : 0 ≡ n = cc in
      let bytes : 1 ≡ size = cc in
      rw (sym nothing) (do_word_boundary-Took true r (pos + size) (omega (arith, e, bytes)))
  dispatch-Took Opcode.back_reference r pos n size e s l =
      absurd (let not_simple : ⊥ = cc in not_simple)
  dispatch-Took Opcode.backward_back_reference r pos n size e s l =
      absurd (let not_simple : ⊥ = cc in not_simple)
  dispatch-Took Opcode.range r pos n size e s l =
      let one : 1 ≡ n = cc in rw (sym one) (do_range-Took r pos size e l)
  dispatch-Took Opcode.range32 r pos n size e s l =
      let one : 1 ≡ n = cc in rw (sym one) (do_range32-Took r pos size e l)
  dispatch-Took Opcode.lookahead r pos n size e s l = absurd (let not_simple : ⊥ = cc in not_simple)
  dispatch-Took Opcode.negative_lookahead r pos n size e s l =
      absurd (let not_simple : ⊥ = cc in not_simple)
  dispatch-Took Opcode.push_char_pos r pos n size e s l =
      absurd (let not_simple : ⊥ = cc in not_simple)
  dispatch-Took Opcode.bne_char_pos r pos n size e s l =
      absurd (let not_simple : ⊥ = cc in not_simple)
  dispatch-Took Opcode.prev r pos n size e s l = absurd (let not_simple : ⊥ = cc in not_simple)
  dispatch-Took Opcode.simple_greedy_quant r pos n size e s l =
      absurd (let not_simple : ⊥ = cc in not_simple)

  step-Ensures :
      (r : Regs) (op : Opcode) (n size : ℕ)
      → opcode_at ctx.bc r.pc ≡ some op
      → simple_chars op ≡ some n
      → length_at ctx.bc r.pc op ≡ some size
      → Ensures (Took n (r.pc + size) r) (step ctx r)
  unfolding step opcode_at
  step-Ensures r op n size o s l =
      rw
        (
          sym (
              bind_assoc (get_u8 ctx.bc r.pc) decode
                (λ x. dispatch ctx x (record r { pc = r.pc + 1 }))),
          step,
        )
        (rw o (dispatch-Took op (record r { pc = r.pc + 1 }) r.pc n size refl s l))

  -- The instruction at the program counter, if `re_is_simple_quantifier` counts `n` characters for
  -- it, it stands in the bytecode, of fewer than 2^31 bytes, the indices into the subject are in it,
  -- and a class has an interval: it runs without undefined behaviour, and takes exactly `n`
  -- characters of the subject and goes on behind itself, or does not match; in neither case does it
  -- change the captures, the stack or the saved states.
  pub step-Took :
      (r : Regs) (op : Opcode) (n size : ℕ)
      → RegsInText len r
      → opcode_at ctx.bc r.pc ≡ some op
      → simple_chars op ≡ some n
      → length_at ctx.bc r.pc op ≡ some size
      → r.pc + size ≤ length ctx.bc
      → length ctx.bc < 2 ^ 31
      → Operands ctx op (record r { pc = r.pc + 1 })
      → Does (Took n (r.pc + size) r) (step ctx r)
  step-Took r op n size v o s l fits short operands =
      Does-join (Took n (r.pc + size) r) (step ctx r) (step-Ensures r op n size o s l)
        (step-IsDefined ctx r op size v o l fits short operands)
