-- ===== src/Regexp/Bounds/Subject.antt =====
-- The instructions that test a character of the subject.
use quickjs_rs.Base.{
  ℕ, ◌≤◌, ◌<◌, arith, Option, Bool, length, leb, ◌==◌, if_cases, not, Bool-cases, inl, inr, xor,
}
use quickjs_rs.Regexp.Opcode.{get_u16}
use quickjs_rs.Regexp.Chars.{is_line_terminator}
use quickjs_rs.Regexp.State.{Context, Regs, Step}
use quickjs_rs.Regexp.Step.{
  with_char, at_line, word_before, word_at, do_line_start, do_line_end, do_any, do_word_boundary,
  do_range, do_range32, do_prev,
}
use quickjs_rs.Regexp.Bounds.Chars.{get_char-le, prev_char-lt}
use quickjs_rs.Regexp.Bounds.{Ensures-seq, RegsInText, StepInText, Ensures, Ensures-then}

module _ (ctx : Context) where
  abbrev len : ℕ
  len = length ctx.cbuf

  abbrev Good : Option Step → Type 0
  Good = Ensures (StepInText len)

  pub with_char-InText :
      (r : Regs) (test : ℕ → Option Bool) (pc : ℕ)
      → RegsInText len r
      → Good (with_char ctx r test pc)
  unfolding with_char
  with_char-InText r test pc v = elim (Bool-cases (leb len r.cptr)) [
    | inl e ↦ rw (e, with_char) (v.machine)
    | inr e ↦
        rw (e, with_char)
          (Ensures-seq (λ (x : ℕ × ℕ). (r.cptr < x.1) × (x.1 ≤ len)) (StepInText len) _ _
            (get_char-le ctx.cbuf_type ctx.cbuf r.cptr)
            λ x h. Ensures-then (StepInText len) (test x.0) _ λ ok.
              if_cases (StepInText len) ok (λ yes. record { machine = v.machine; at = h.1 })
                (λ no. v.machine))
  ]

  pub at_line-InText : (r : Regs) (char : Option ℕ) → RegsInText len r → Good (at_line ctx r char)
  unfolding at_line
  at_line-InText r char v = elim (Bool-cases ctx.multi_line) [
    | inr e ↦ rw (e, at_line) (v.machine)
    | inl e ↦
        rw (e, at_line)
          (Ensures-then (StepInText len) char _
            λ c. if_cases (StepInText len) (is_line_terminator c) (λ yes. v) (λ no. v.machine))
  ]

  pub do_line_start-InText : (r : Regs) → RegsInText len r → Good (do_line_start ctx r)
  unfolding do_line_start
  do_line_start-InText r v = elim (Bool-cases (r.cptr == 0)) [
    | inl e ↦ rw (e, do_line_start) (v)
    | inr e ↦ rw (e, do_line_start) (at_line-InText r _ v)
  ]

  pub do_line_end-InText : (r : Regs) → RegsInText len r → Good (do_line_end ctx r)
  unfolding do_line_end
  do_line_end-InText r v = elim (Bool-cases (r.cptr == len)) [
    | inl e ↦ rw (e, do_line_end) (v)
    | inr e ↦ rw (e, do_line_end) (at_line-InText r _ v)
  ]

  pub do_any-InText : (ok : ℕ → Bool) (r : Regs) → RegsInText len r → Good (do_any ctx ok r)
  unfolding do_any
  do_any-InText ok r v = elim (Bool-cases (r.cptr == len)) [
    | inl e ↦ rw (e, do_any) (v.machine)
    | inr e ↦
        rw (e, do_any)
          (Ensures-seq (λ (x : ℕ × ℕ). (r.cptr < x.1) × (x.1 ≤ len)) (StepInText len) _ _
            (get_char-le ctx.cbuf_type ctx.cbuf r.cptr)
            λ x h.
              if_cases (StepInText len) (ok x.0) (λ yes. record { machine = v.machine; at = h.1 })
                (λ no. v.machine))
  ]

  pub do_word_boundary-InText :
      (negated : Bool) (r : Regs) → RegsInText len r → Good (do_word_boundary ctx negated r)
  unfolding do_word_boundary
  do_word_boundary-InText negated r v = Ensures-then (StepInText len) (word_before ctx r) _ λ v1.
      Ensures-then (StepInText len) (word_at ctx r) _
        λ v2. if_cases (StepInText len) (xor (xor v1 v2) (not negated)) (λ yes. v.machine) (λ no. v)

  pub do_range-InText : (r : Regs) → RegsInText len r → Good (do_range ctx r)
  unfolding do_range
  do_range-InText r v =
      Ensures-then (StepInText len) (get_u16 ctx.bc r.pc) _ λ n. with_char-InText r _ _ v

  pub do_range32-InText : (r : Regs) → RegsInText len r → Good (do_range32 ctx r)
  unfolding do_range32
  do_range32-InText r v =
      Ensures-then (StepInText len) (get_u16 ctx.bc r.pc) _ λ n. with_char-InText r _ _ v

  pub do_prev-InText : (r : Regs) → RegsInText len r → Good (do_prev ctx r)
  unfolding do_prev
  do_prev-InText r v = elim (Bool-cases (r.cptr == 0)) [
    | inl e ↦ rw (e, do_prev) v.machine
    | inr e ↦
        rw (e, do_prev)
          (Ensures-seq (λ p. p < r.cptr) (StepInText len) _ _
            (prev_char-lt ctx.cbuf_type ctx.cbuf 0 r.cptr)
            λ p h. record { machine = v.machine; at = omega (arith, v.at) })
  ]
