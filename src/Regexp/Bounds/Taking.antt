-- ===== src/Regexp/Bounds/Taking.antt =====
-- Where the instructions that read the subject are defined.
use quickjs_rs.Base.{
  ℕ, zero, suc, ◌+◌, ◌-◌, ◌*◌, ◌≤◌, ◌<◌, ◌≡◌, arith, Option, none, some, List, [], ◌∷◌, Bool, true,
  false, length, get_elem?, ltb, leb, ◌==◌,
}
use quickjs_rs.Regexp.Opcode.{get_u8}
use quickjs_rs.Regexp.Chars.{get_char, peek_char, get_prev_char, peek_prev_char, prev_char}
use quickjs_rs.Regexp.State.{Context, Regs}
use quickjs_rs.Regexp.Step.{
  canon, with_char, at_line, do_line_start, do_line_end, do_any, word_before, word_at,
  do_word_boundary, compare_forward, compare_backward, compare_group, do_back_reference, do_prev,
}
use quickjs_rs.Regexp.Static.Path.{Ensures-value}
use quickjs_rs.Regexp.Bounds.{InText, AllInText, RegsInText}
use quickjs_rs.Regexp.Bounds.Chars.{get_prev_char-lt}
use quickjs_rs.Regexp.Bounds.Defined.{
  IsDefined, IsDefined-bind, elim_cases, get_elem?-IsDefined, get_u8-IsDefined, get_char-IsDefined,
  peek_char-IsDefined, get_prev_char-IsDefined, peek_prev_char-IsDefined, prev_char-IsDefined,
}

AllInText-at :
    (n : ℕ) (cs : List (Option ℕ)) (i : ℕ) (c : Option ℕ)
    → AllInText n cs
    → get_elem? cs i ≡ some c
    → InText n c
AllInText-at n [] i c a e = absurd (let no : ⊥ = cc in no)
AllInText-at n (x ∷ cs) zero c a e = rw (let same : c ≡ x = cc in same) a.0
AllInText-at n (x ∷ cs) (suc i) c a e = AllInText-at n cs i c a.1 e

module _ (ctx : Context) where
  abbrev len : ℕ
  len = length ctx.cbuf

  pub with_char-IsDefined :
      (r : Regs) (test : ℕ → Option Bool) (pc : ℕ)
      → ((c : ℕ) → IsDefined (test c))
      → IsDefined (with_char ctx r test pc)
  unfolding with_char
  with_char-IsDefined r test pc t =
      elim_cases IsDefined (leb len r.cptr) (λ ends. tt)
        λ more.
          IsDefined-bind (get_char ctx.cbuf_type ctx.cbuf len r.cptr) _
            (get_char-IsDefined ctx.cbuf_type ctx.cbuf r.cptr len (ground arith) (omega arith))
            λ x e. IsDefined-bind (test x.0) _ (t x.0) λ ok e'. tt

  pub do_any-IsDefined : (ok : ℕ → Bool) (r : Regs) → r.cptr ≤ len → IsDefined (do_any ctx ok r)
  unfolding do_any
  do_any-IsDefined ok r at =
      elim_cases IsDefined (r.cptr == len) (λ ends. tt)
        λ more.
          IsDefined-bind (get_char ctx.cbuf_type ctx.cbuf len r.cptr) _
            (get_char-IsDefined ctx.cbuf_type ctx.cbuf r.cptr len (ground arith) (omega arith))
            λ x e. tt

  at_line-IsDefined : (r : Regs) (char : Option ℕ) → IsDefined char → IsDefined (at_line ctx r char)
  unfolding at_line
  at_line-IsDefined r char d =
      elim_cases IsDefined ctx.multi_line (λ multi. IsDefined-bind char _ d λ c e. tt)
        (λ single. tt)

  pub do_line_start-IsDefined : (r : Regs) → r.cptr ≤ len → IsDefined (do_line_start ctx r)
  unfolding do_line_start
  do_line_start-IsDefined r at =
      elim_cases IsDefined (r.cptr == 0) (λ start. tt)
        λ inner.
          at_line-IsDefined r _
            (peek_prev_char-IsDefined ctx.cbuf_type ctx.cbuf r.cptr (ground arith) at 0)

  pub do_line_end-IsDefined : (r : Regs) → r.cptr ≤ len → IsDefined (do_line_end ctx r)
  unfolding do_line_end
  do_line_end-IsDefined r at =
      elim_cases IsDefined (r.cptr == len) (λ ends. tt)
        λ inner.
          at_line-IsDefined r _ (peek_char-IsDefined ctx.cbuf_type ctx.cbuf r.cptr (ground arith))

  pub do_word_boundary-IsDefined :
      (negated : Bool) (r : Regs) → r.cptr ≤ len → IsDefined (do_word_boundary ctx negated r)
  unfolding do_word_boundary word_before word_at
  do_word_boundary-IsDefined negated r at =
      IsDefined-bind (word_before ctx r) _ before
        λ v1 e1. IsDefined-bind (word_at ctx r) _ after λ v2 e2. tt
    where
      before : IsDefined (word_before ctx r)
      before =
          elim_cases IsDefined (r.cptr == 0) (λ start. tt)
            λ inner.
              IsDefined-bind (peek_prev_char ctx.cbuf_type ctx.cbuf 0 r.cptr) _
                (peek_prev_char-IsDefined ctx.cbuf_type ctx.cbuf r.cptr (ground arith) at 0)
                λ c e. tt

      after : IsDefined (word_at ctx r)
      after =
          elim_cases IsDefined (leb len r.cptr) (λ ends. tt)
            λ inner.
              IsDefined-bind (peek_char ctx.cbuf_type ctx.cbuf len r.cptr) _
                (peek_char-IsDefined ctx.cbuf_type ctx.cbuf r.cptr (ground arith)) λ c e. tt

  compare_forward-IsDefined :
      (fuel cptr1 cptr1_end cptr : ℕ)
      → cptr1_end ≤ len
      → IsDefined (compare_forward ctx fuel cptr1 cptr1_end cptr)
  unfolding compare_forward
  compare_forward-IsDefined zero cptr1 cptr1_end cptr le = tt
  compare_forward-IsDefined (suc fuel) cptr1 cptr1_end cptr le =
      elim_cases IsDefined (ltb cptr1 cptr1_end)
        (λ left.
          elim_cases IsDefined (leb len cptr) (λ ends. tt)
            λ more.
              IsDefined-bind (get_char ctx.cbuf_type ctx.cbuf cptr1_end cptr1) _
                (get_char-IsDefined ctx.cbuf_type ctx.cbuf cptr1 cptr1_end (ground arith) le)
                λ x1 e1.
                  IsDefined-bind (get_char ctx.cbuf_type ctx.cbuf len cptr) _
                    (get_char-IsDefined ctx.cbuf_type ctx.cbuf cptr len (ground arith)
                      (omega arith))
                    λ x2 e2.
                      elim_cases IsDefined (canon ctx x1.0 == canon ctx x2.0)
                        (λ same. compare_forward-IsDefined fuel x1.1 cptr1_end x2.1 le)
                        (λ other. tt))
        (λ over. tt)

  compare_backward-IsDefined :
      (fuel cptr1 cptr1_start cptr : ℕ)
      → cptr1 ≤ len
      → cptr ≤ len
      → IsDefined (compare_backward ctx fuel cptr1 cptr1_start cptr)
  unfolding compare_backward
  compare_backward-IsDefined zero cptr1 cptr1_start cptr le at = tt
  compare_backward-IsDefined (suc fuel) cptr1 cptr1_start cptr le at =
      elim_cases IsDefined (ltb cptr1_start cptr1)
        (λ left.
          elim_cases IsDefined (cptr == 0) (λ ends. tt)
            λ more.
              IsDefined-bind (get_prev_char ctx.cbuf_type ctx.cbuf cptr1_start cptr1) _
                (get_prev_char-IsDefined ctx.cbuf_type ctx.cbuf cptr1 (ground arith) le cptr1_start)
                λ x1 e1.
                  IsDefined-bind (get_prev_char ctx.cbuf_type ctx.cbuf 0 cptr) _
                    (get_prev_char-IsDefined ctx.cbuf_type ctx.cbuf cptr (ground arith) at 0)
                    λ x2 e2.
                      elim_cases IsDefined (canon ctx x1.0 == canon ctx x2.0)
                        (λ same.
                          compare_backward-IsDefined fuel x1.1 cptr1_start x2.1
                            (omega (arith, back cptr1 cptr1_start x1 e1))
                            (omega (arith, back cptr 0 x2 e2)))
                        (λ other. tt))
        (λ over. tt)
    where
      back :
          (p start : ℕ) (x : ℕ × ℕ)
          → get_prev_char ctx.cbuf_type ctx.cbuf start p ≡ some x
          → x.1 < p
      back p start x e =
          Ensures-value (λ (x : ℕ × ℕ). x.1 < p) (get_prev_char ctx.cbuf_type ctx.cbuf start p) x
            (get_prev_char-lt ctx.cbuf_type ctx.cbuf start p) e

  compare_group-IsDefined :
      (backward : Bool) (start end : Option ℕ) (cptr : ℕ)
      → InText len end
      → cptr ≤ len
      → IsDefined (compare_group ctx backward start end cptr)
  unfolding compare_group
  compare_group-IsDefined true (some start) (some end) cptr le at =
      compare_backward-IsDefined (end - start) end start cptr le at
  compare_group-IsDefined false (some start) (some end) cptr le at =
      compare_forward-IsDefined (end - start) start end cptr le
  compare_group-IsDefined backward (some start) none cptr le at = tt
  compare_group-IsDefined backward none end cptr le at = tt

  pub do_back_reference-IsDefined :
      (backward : Bool) (r : Regs)
      → RegsInText len r
      → r.pc < length ctx.bc
      → length r.machine.capture ≡ 2 * ctx.capture_count
      → IsDefined (do_back_reference ctx backward r)
  unfolding do_back_reference
  do_back_reference-IsDefined backward r v fits count =
      IsDefined-bind (get_u8 ctx.bc r.pc) _ (get_u8-IsDefined ctx.bc r.pc fits) λ val e.
        elim_cases IsDefined (leb ctx.capture_count val) (λ no_group. tt)
          λ group.
            let there : val < ctx.capture_count = ground arith in
            IsDefined-bind (get_elem? r.machine.capture (2 * val)) _
              (get_elem?-IsDefined r.machine.capture (2 * val) (omega arith))
              λ start e1.
                IsDefined-bind (get_elem? r.machine.capture (2 * val + 1)) _
                  (get_elem?-IsDefined r.machine.capture (2 * val + 1) (omega arith))
                  λ end e2.
                    IsDefined-bind (compare_group ctx backward start end r.cptr) _
                      (compare_group-IsDefined backward start end r.cptr
                        (AllInText-at len r.machine.capture (2 * val + 1) end v.machine.captures e2)
                        v.at)
                      λ found e3. tt

  pub do_prev-IsDefined : (r : Regs) → r.cptr ≤ len → IsDefined (do_prev ctx r)
  unfolding do_prev
  do_prev-IsDefined r at =
      elim_cases IsDefined (r.cptr == 0) (λ start. tt)
        λ inner.
          IsDefined-bind (prev_char ctx.cbuf_type ctx.cbuf 0 r.cptr) _
            (prev_char-IsDefined ctx.cbuf_type ctx.cbuf r.cptr (ground arith) at 0) λ p e. tt
