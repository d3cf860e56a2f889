-- ===== src/Regexp/Bounds/Reference.antt =====
-- The back references.
use quickjs_rs.Base.{
  ℕ, zero, suc, ◌+◌, ◌-◌, ◌*◌, ◌≤◌, ◌<◌, arith, Option, none, some, Bool, true, false, length,
  get_elem?, ltb, leb, ◌==◌, Bool-cases, inl, inr,
}
use quickjs_rs.Regexp.Opcode.{get_u8}
use quickjs_rs.Regexp.State.{Context, Regs, Step, next, reject}
use quickjs_rs.Regexp.Step.{
  compare_group, canon, compare_forward, compare_backward, do_back_reference,
}
use quickjs_rs.Regexp.Bounds.Chars.{get_char-le, get_prev_char-lt}
use quickjs_rs.Regexp.Bounds.{
  Ensures-seq, RegsInText, StepInText, Ensures, Ensures-then, Bool_split,
}

module _ (ctx : Context) where
  abbrev len : ℕ
  len = length ctx.cbuf

  abbrev Good : Option Step → Type 0
  Good = Ensures (StepInText len)

  -- The index that a comparison ends at.
  abbrev Ended : Option ℕ → Type 0
  Ended = Ensures (λ p. p ≤ len)

  pub compare_forward-le :
      (fuel cptr1 cptr1_end cptr : ℕ)
      → cptr ≤ len
      → Ensures Ended (compare_forward ctx fuel cptr1 cptr1_end cptr)
  unfolding compare_forward
  compare_forward-le zero cptr1 cptr1_end cptr h = h
  compare_forward-le (suc fuel) cptr1 cptr1_end cptr h = elim (Bool-cases (ltb cptr1 cptr1_end)) [
    | inr e ↦ rw (e, compare_forward) h
    | inl e ↦ elim (Bool-cases (leb len cptr)) [
      | inl e' ↦ rw (e, compare_forward, e') tt
      | inr e' ↦
          rw (e, compare_forward, e')
            (Ensures-then Ended _ _ λ x1.
              Ensures-seq (λ (x : ℕ × ℕ). (cptr < x.1) × (x.1 ≤ len)) Ended _ _
                (get_char-le ctx.cbuf_type ctx.cbuf cptr)
                λ x2 h2.
                  Bool_split
                    (λ same. Ensures Ended (elim same [
                      | true ↦ compare_forward ctx fuel x1.1 cptr1_end x2.1
                      | false ↦ some none
                    ]))
                    (canon ctx x1.0 == canon ctx x2.0)
                    (compare_forward-le fuel x1.1 cptr1_end x2.1 h2.1) tt)
    ]
  ]

  pub compare_backward-le :
      (fuel cptr1 cptr1_start cptr : ℕ)
      → cptr ≤ len
      → Ensures Ended (compare_backward ctx fuel cptr1 cptr1_start cptr)
  unfolding compare_backward
  compare_backward-le zero cptr1 cptr1_start cptr h = h
  compare_backward-le (suc fuel) cptr1 cptr1_start cptr h =
      elim (Bool-cases (ltb cptr1_start cptr1)) [
        | inr e ↦ rw (e, compare_backward) h
        | inl e ↦ elim (Bool-cases (cptr == 0)) [
          | inl e' ↦ rw (e, compare_backward, e') tt
          | inr e' ↦
              rw (e, compare_backward, e')
                (Ensures-then Ended _ _ λ x1.
                  Ensures-seq (λ (x : ℕ × ℕ). x.1 < cptr) Ended _ _
                    (get_prev_char-lt ctx.cbuf_type ctx.cbuf 0 cptr)
                    λ x2 h2.
                      Bool_split
                        (λ same. Ensures Ended (elim same [
                          | true ↦ compare_backward ctx fuel x1.1 cptr1_start x2.1
                          | false ↦ some none
                        ]))
                        (canon ctx x1.0 == canon ctx x2.0)
                        (compare_backward-le fuel x1.1 cptr1_start x2.1 (omega (arith, h2))) tt)
        ]
      ]

  pub compare_group-le :
      (backward : Bool) (start end : Option ℕ) (cptr : ℕ)
      → cptr ≤ len
      → Ensures Ended (compare_group ctx backward start end cptr)
  unfolding compare_group
  compare_group-le true (some start) (some end) cptr h =
      compare_backward-le (end - start) end start cptr h
  compare_group-le false (some start) (some end) cptr h =
      compare_forward-le (end - start) start end cptr h
  compare_group-le backward (some start) none cptr h = h
  compare_group-le backward none end cptr h = h

  pub do_back_reference-InText :
      (backward : Bool) (r : Regs) → RegsInText len r → Good (do_back_reference ctx backward r)
  unfolding do_back_reference
  do_back_reference-InText backward r v =
      Ensures-then (StepInText len) (get_u8 ctx.bc r.pc) _ λ val.
        elim (Bool-cases (leb ctx.capture_count val)) [
          | inl e ↦ rw (e, do_back_reference) v.machine
          | inr e ↦
              rw (e, do_back_reference)
                (Ensures-then (StepInText len) (get_elem? r.machine.capture (2 * val)) _ λ start.
                  Ensures-then (StepInText len) (get_elem? r.machine.capture (2 * val + 1)) _ λ end.
                    Ensures-seq Ended (StepInText len) _ _
                      (compare_group-le backward start end r.cptr v.at) λ found h. ended found h)
        ]
    where
      ended :
          (found : Option ℕ)
          → Ended found
          → StepInText len (elim found [
            | none ↦ reject r.machine
            | some cptr ↦ next (record r { pc = r.pc + 1; cptr = cptr })
          ])
      ended none h = v.machine
      ended (some p) h = record { machine = v.machine; at = h }
