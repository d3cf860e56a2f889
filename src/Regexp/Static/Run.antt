-- ===== src/Regexp/Static/Run.antt =====
-- A run of the body of a simple quantifier, as the greedy quantifier calls it, and the count of
-- `re_is_simple_quantifier`.
use quickjs_rs.Base.{
  ℕ, zero, suc, ◌+◌, ◌^◌, ◌≤◌, ◌<◌, ◌≡◌, refl, arith, Option, none, some, List, ◌∷◌, ◌++◌, length,
  true, false, ltb, Option-cases, inl, inr, sym, ◌∙◌,
}
use quickjs_rs.Base.Partial.{bind_assoc}
use quickjs_rs.Regexp.Opcode.{Opcode, decode, get_u8}
use quickjs_rs.Regexp.State.{Context, Regs, Step, next, accept, reject, error, quantify}
use quickjs_rs.Regexp.Step.{dispatch, step}
use quickjs_rs.Regexp.Exec.{Result, hit, miss, failed, fault, out_of_fuel, run}
use quickjs_rs.Regexp.Bounds.{RegsInText, StepInText, Ensures}
use quickjs_rs.Regexp.Bounds.Dispatch.{step-InText}
use quickjs_rs.Regexp.Bounds.Progress.{Does}
use quickjs_rs.Regexp.Static.{
  done, returned, scan, scan_all, opcode_at, length_at, visit_simple, simple_chars,
  re_is_simple_quantifier,
}
use quickjs_rs.Regexp.Static.Path.{Ensures-value, length_at-pos, opcode_at-lt}
use quickjs_rs.Regexp.Static.Simple.{Chars, Took, step-Took}
use quickjs_rs.Regexp.Static.Body.{
  Code, ended, instruction, Code-le, HasInterval, match_behind, opcode_at-embedded,
  length_at-embedded, simple-Operands, whole_length,
}

module _ (ctx : Context) where
  abbrev len : ℕ
  len = length ctx.cbuf

  -- A call takes `n` characters, or does not match; the captures, the stack and the saved states
  -- stay. It returns, and does not fail.
  abbrev pub TookBody : ℕ → Regs → Result → Type 0
  TookBody n r (hit p m) = (m ≡ r.machine) × Chars ctx n r.cptr p
  TookBody n r (miss m) = m ≡ r.machine
  TookBody n r _ = ⊥

  Chars-append : (n m a b c : ℕ) → Chars ctx n a b → Chars ctx m b c → Chars ctx (n + m) a c
  Chars-append zero m a b c x y = let same : 0 + m ≡ m = omega arith in rw same (rw (sym x) y)
  Chars-append (suc n) m a b c x y =
      let same : suc n + m ≡ suc (n + m) = omega arith in
      rw same (x.0, x.1, x.2, Chars-append n m x.1 b c x.3 y)

  TookBody-after :
      (n m : ℕ) (r r' : Regs) (res : Result)
      → r'.machine ≡ r.machine
      → Chars ctx n r.cptr r'.cptr
      → TookBody m r' res
      → TookBody (n + m) r res
  TookBody-after n m r r' (hit p machine) e c t = (t.0 ∙ e, Chars-append n m r.cptr r'.cptr p c t.1)
  TookBody-after n m r r' (miss machine) e c t = t ∙ e
  TookBody-after n m r r' (failed machine) e c t = t
  TookBody-after n m r r' fault e c t = t
  TookBody-after n m r r' out_of_fuel e c t = t

  -- `REOP_match`
  step-matched :
      (r : Regs)
      → opcode_at ctx.bc r.pc ≡ some Opcode.matched
      → step ctx r ≡ some (accept (record r { pc = r.pc + 1 }))
  unfolding step opcode_at dispatch
  step-matched r o =
      rw
        (
          sym (
              bind_assoc (get_u8 ctx.bc r.pc) decode
                (λ x. dispatch ctx x (record r { pc = r.pc + 1 }))),
          step,
        )
        (rw o refl)

  -- The end of the body.
  run-matched :
      (r : Regs) (k : ℕ)
      → opcode_at ctx.bc r.pc ≡ some Opcode.matched
      → 0 < k
      → TookBody 0 r (run k ctx true r)
  unfolding run
  run-matched r zero o h = absurd (omega arith)
  run-matched r (suc k) o h = rw (step-matched r o, run) (refl, refl)

  -- An instruction, and the run behind it.
  run-next :
      (r : Regs) (k n m target : ℕ) (o : Option Step)
      → step ctx r ≡ o
      → Does (Took ctx n target r) o
      → Ensures (StepInText len) o
      → ((r' : Regs) → RegsInText len r' → r'.pc ≡ target → TookBody m r' (run k ctx true r'))
      → TookBody (n + m) r (run (suc k) ctx true r)
  unfolding run
  run-next r k n m target none e t v rest = absurd t
  run-next r k n m target (some (next r')) e t v rest =
      rw (e, run) (TookBody-after n m r r' _ t.0 t.3 (rest r' v t.2))
  run-next r k n m target (some (accept r')) e t v rest = absurd t
  run-next r k n m target (some (reject machine)) e t v rest = rw (e, run) t
  run-next r k n m target (some (error machine)) e t v rest = absurd t
  run-next r k n m target (some (quantify q)) e t v rest = absurd t

  module _ (pre body rest : List ℕ) (whole : ctx.bc ≡ pre ++ (body ++ (10 ∷ rest)))
      (short : length ctx.bc < 2 ^ 31) where
    -- What the rest of the body takes, where the loop comes to `total`.
    abbrev TookRest : ℕ → ℕ → ℕ → ℕ → Type 0
    TookRest pos count total k =
        (m : ℕ) × (total ≡ count + m)
        × ((r : Regs)
            → RegsInText len r
            → r.pc ≡ length pre + pos
            → TookBody m r (run k ctx true r))

    -- The rounds of the loop.
    scan-over :
        (pos fuel count : ℕ)
        → ltb pos (length body) ≡ false
        → scan body visit_simple (suc fuel) pos count ≡ done count
    unfolding scan
    scan-over pos fuel count e = rw (e, scan) refl

    scan-instruction :
        (pos fuel count n size : ℕ) (op : Opcode)
        → ltb pos (length body) ≡ true
        → opcode_at body pos ≡ some op
        → simple_chars op ≡ some n
        → length_at body pos op ≡ some size
        → scan body visit_simple (suc fuel) pos count
          ≡ scan body visit_simple fuel (pos + size) (count + n)
    unfolding scan visit_simple
    scan-instruction pos fuel count n size op e eo ec el =
        rw (e, scan, eo, ec, visit_simple, el) refl

    scan-stop :
        (pos fuel count : ℕ) (op : Opcode)
        → ltb pos (length body) ≡ true
        → opcode_at body pos ≡ some op
        → simple_chars op ≡ none
        → scan body visit_simple (suc fuel) pos count ≡ returned
    unfolding scan visit_simple
    scan-stop pos fuel count op e eo ec = rw (e, scan, eo, ec, visit_simple) refl

    at_end :
        (pos fuel count total k : ℕ)
        → pos ≡ length body
        → scan body visit_simple fuel pos count ≡ done total
        → 0 < k
        → TookRest pos count total k
    unfolding scan
    at_end pos zero count total k e s h = absurd (let no : ⊥ = cc in no)
    at_end pos (suc fuel) count total k e s h =
        let over : ltb pos (length body) ≡ false = ground (arith, e) in
        let last : done count ≡ done total = sym (scan-over pos fuel count over) ∙ s in
        let same : count ≡ total = cc in
        (
          0,
          omega (arith, same),
          λ r v at. run-matched r k (rw (at, e) (match_behind ctx.bc pre body rest whole)) h,
        )

    -- One instruction of the body.
    at_instruction :
        (pos fuel count total k size : ℕ) (op : Opcode)
        → opcode_at body pos ≡ some op
        → length_at body pos op ≡ some size
        → HasInterval op size
        → pos + size ≤ length body
        → scan body visit_simple fuel pos count ≡ done total
        → ((n left : ℕ)
            → scan body visit_simple left (pos + size) (count + n) ≡ done total
            → TookRest (pos + size) (count + n) total k)
        → TookRest pos count total (suc k)
    unfolding scan
    at_instruction pos zero count total k size op eo el more inside s rest_took =
        absurd (let no : ⊥ = cc in no)
    at_instruction pos (suc fuel) count total k size op eo el more inside s rest_took =
        elim (Option-cases (simple_chars op)) [
          | inl other ↦
              let stop : returned ≡ done total = sym (scan-stop pos fuel count op e eo other) ∙ s in
              absurd (let no : ⊥ = cc in no)
          | inr (n, ec) ↦
              let (m, sum, took) =
                rest_took n fuel (sym (scan-instruction pos fuel count n size op e eo ec el) ∙ s) in
              (n + m, omega arith, λ r v at. took_first n m ec took r v at)
        ]
      where
        e : ltb pos (length body) ≡ true
        e = ground (arith, opcode_at-lt body pos op eo)

        took_first :
            (n m : ℕ)
            → simple_chars op ≡ some n
            → ((r : Regs)
                → RegsInText len r
                → r.pc ≡ length pre + (pos + size)
                → TookBody m r (run k ctx true r))
            → (r : Regs) → RegsInText len r
            → r.pc ≡ length pre + pos
            → TookBody (n + m) r (run (suc k) ctx true r)
        took_first n m ec took r v at =
            let eo' : opcode_at ctx.bc r.pc ≡ some op =
              rw at (opcode_at-embedded ctx.bc pre body rest whole pos op eo) in
            let el' : length_at ctx.bc r.pc op ≡ some size =
              rw at (length_at-embedded ctx.bc pre body rest whole pos op size el) in
            run-next r k n m (r.pc + size) _ refl
              (step-Took ctx r op n size v eo' ec el'
                (omega (arith, at, whole_length ctx.bc pre body rest whole)) short
                (simple-Operands ctx r op n size ec el' more))
              (step-InText ctx r v) (λ r' v' at'. took r' v' (omega (arith, at, at')))

    took :
        (pos fuel count total k : ℕ)
        → Code body pos
        → scan body visit_simple fuel pos count ≡ done total
        → length body < k + pos
        → TookRest pos count total k
    took pos fuel count total k (ended e) s enough =
        at_end pos fuel count total k e s (omega (arith, e))
    took pos fuel count total zero (instruction {op = op} eo el more later) s enough =
        absurd (let no : ⊥ = omega (arith, opcode_at-lt body pos op eo) in no)
    took pos fuel count total (suc k) (instruction {len = size} {op = op} eo el more later) s
          enough =
        let positive : 0 < size =
          Ensures-value (λ n. 0 < n) (length_at body pos op) size (length_at-pos body pos op) el in
        at_instruction pos fuel count total k size op eo el more (Code-le body (pos + size) later) s
          λ n left s'. took (pos + size) left (count + n) total k later s' (omega arith)

    -- Where `re_is_simple_quantifier` counts `n` characters for a body that is made of whole
    -- instructions, its classes with an interval each, and the bytecode, of fewer than 2^31 bytes,
    -- holds the body with `REOP_match` behind it: a call of `lre_exec_backtrack` for the body, from
    -- indices in the subject, returns, without undefined behaviour or an error, after at most one
    -- instruction for each byte and one. It has taken exactly `n` characters of the subject, or has
    -- found no match, and the captures, the stack and the saved states are as before.
    pub run-TookBody :
        (n k : ℕ) (r : Regs)
        → Code body 0
        → re_is_simple_quantifier body ≡ done n
        → RegsInText len r
        → r.pc ≡ length pre
        → length body < k
        → TookBody n r (run k ctx true r)
    unfolding re_is_simple_quantifier scan_all
    run-TookBody n k r code counted v at enough =
        let (m, sum, t) = took 0 (length body + 1) 0 n k code counted (omega arith) in
        let same : n ≡ m = omega arith in rw same (t r v (omega (arith, at)))
