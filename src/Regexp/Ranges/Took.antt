-- ===== src/Regexp/Ranges/Took.antt =====
-- What `re_emit_range` leaves in the buffer, and that its instruction takes the characters of the set.
use quickjs_rs.Base.{
  ℕ, ◌+◌, ◌*◌, ◌/◌, ◌^◌, ◌<◌, ◌≡◌, sym, ap, ◌∙◌, arith, Option, none, some, List, [], ◌∷◌, ◌++◌,
  Bool, true, false, leb, if◌then◌else◌, length, length-append, Bool-cases, inl, inr,
}
use mathlib.Core.List.{append_assoc}
use mathlib.Core.Path.{subst}
use quickjs_rs.Base.Slices.{length-take_le}
use quickjs_rs.Base.Partial.{◌>>=◌}
use quickjs_rs.CharRange.Meaning.{contains}
use quickjs_rs.DynBuf.{DynBuf}
use quickjs_rs.DynBuf.Memory.{Allocator}
use quickjs_rs.DynBuf.Invariant.{IsValid, contents}
use quickjs_rs.DynBuf.Run.{joined, total, puts-Joined}
use quickjs_rs.Regexp.Chars.{get_char}
use quickjs_rs.Regexp.State.{Context, Regs, next, reject}
use quickjs_rs.Regexp.Step.{step, canon}
use quickjs_rs.Regexp.Emit.{uint32_max, re_emit_range}
use quickjs_rs.Regexp.Ranges.Runs.{tested}
use quickjs_rs.Regexp.Ranges.Ends.{point_of, high_point}
use quickjs_rs.Regexp.Ranges.Compiled.{pieces16, pieces32, step-16, step-32, step-none}
use quickjs_rs.Regexp.Ranges.Class.{
  IsClass, class_pieces, half, re_emit_range-puts, length-joined, total-class, total-16, total-32,
}

-- The result of an emitter: it returns 0, the buffer is sound, and where its error flag is clear in
-- the end, it was at the start and `bytes` stand behind the old contents.
pub record Emitted {H : Type 0} (s : DynBuf) (bytes : List ℕ) (r : Option (H × DynBuf × Bool))
    : Type 0 where
  pub heap : H
  pub last : DynBuf
  pub returns : r ≡ some (heap, last, true)
  pub valid : IsValid last
  pub clear : last.error ≡ false → (s.error ≡ false) × (contents last ≡ contents s ++ bytes)

-- For canonical points, and fewer than 65535 intervals, `re_emit_range` returns 0 and touches nothing
-- out of the buffer; and unless `dbuf_error` is set at the end, it has appended one instruction.
pub re_emit_range-Emitted :
    {H : Type 0} (alloc : Allocator H) (h : H) (s : DynBuf) (ps : List ℕ)
    → IsClass ps
    → IsValid s
    → s.size + 2 ^ 20 < 2 ^ 64
    → Emitted s (joined (class_pieces ps)) (re_emit_range alloc h s ps)
re_emit_range-Emitted alloc h s ps c v fits =
    let j = puts-Joined alloc h s (class_pieces ps) v (omega (arith, total-class ps c)) in
    record {
      heap = j.heap;
      last = j.last;
      returns =
          re_emit_range-puts alloc h s ps c ∙ ap (λ o. o >>= λ r. some (r.0, r.1, true)) j.returns;
      valid = j.valid;
      clear = j.clear;
    }

module _ (ctx : Context) (r : Regs) (c cptr : ℕ) (pre post : List ℕ) (here : r.pc ≡ length pre)
    (more : leb (length ctx.cbuf) r.cptr ≡ false)
    (char : get_char ctx.cbuf_type ctx.cbuf (length ctx.cbuf) r.cptr ≡ some (c, cptr))
    (small : canon ctx c < uint32_max) where
  class-step :
      (ps : List ℕ) (end : ℕ)
      → IsClass ps
      → ctx.bc ≡ pre ++ (joined (class_pieces ps) ++ post)
      → end ≡ length pre + total (class_pieces ps)
      → step ctx r ≡ some (tested r cptr (contains ps (canon ctx c)) end)
  class-step [] end k code at = step-none ctx r c cptr pre post here more char small code
  class-step (p ∷ []) end k code at = absurd k.canonical.1
  class-step (p ∷ q ∷ ps) end k code at = elim (Bool-cases (leb (point_of (p ∷ q ∷ ps)) 0xffff)) [
    | inl e ↦
        let code' : ctx.bc ≡ pre ++ (joined (pieces16 (p ∷ q ∷ ps) n) ++ post) = rw (e) at code in
        let at' : end ≡ length pre + total (pieces16 (p ∷ q ∷ ps) n) = rw (e) at at in
        let reached : end ≡ r.pc + 1 + 2 + 4 * n =
          omega (arith, at', here, total-16 (p ∷ q ∷ ps) n even) in
        rw (reached) (
          step-16 ctx r (p ∷ q ∷ ps) n c cptr pre post k.canonical.0 even (omega (arith, k.few))
            (omega (arith, even)) k.bounded here more char small code' (point_of (p ∷ q ∷ ps))
            (high_point (p ∷ q ∷ ps) n k.canonical.0 even k.bounded (omega (arith, even)))
            (ground arith))
    | inr e ↦
        let code' : ctx.bc ≡ pre ++ (joined (pieces32 (p ∷ q ∷ ps) n) ++ post) = rw (e) at code in
        let at' : end ≡ length pre + total (pieces32 (p ∷ q ∷ ps) n) = rw (e) at at in
        let reached : end ≡ r.pc + 1 + 2 + 8 * n =
          omega (arith, at', here, total-32 (p ∷ q ∷ ps) n even) in
        rw (reached) (
          step-32 ctx r (p ∷ q ∷ ps) n c cptr pre post k.canonical.0 even (omega (arith, k.few))
            (omega (arith, even)) k.bounded here more char small code')
  ]
    where
      n : ℕ
      n = length (p ∷ q ∷ ps) / 2

      even : length (p ∷ q ∷ ps) ≡ 2 * n
      even = half (p ∷ q ∷ ps) k.canonical.1

-- Where `re_emit_range` has emitted the canonical points `ps` and no error is set, the interpreter
-- that comes to the instruction at a character takes it, and goes on behind the instruction, if the
-- character (canonicalized where case is ignored) is in the set, and else does not match.
pub re_emit_range-step :
    {H : Type 0} (alloc : Allocator H) (h : H) (s : DynBuf) (ps : List ℕ) (h' : H) (s' : DynBuf)
    (ctx : Context) (r : Regs) (c cptr : ℕ) (post : List ℕ)
    → IsClass ps
    → IsValid s
    → s.size + 2 ^ 20 < 2 ^ 64
    → re_emit_range alloc h s ps ≡ some (h', s', true)
    → s'.error ≡ false
    → ctx.bc ≡ contents s' ++ post
    → r.pc ≡ s.size
    → r.cptr < length ctx.cbuf
    → get_char ctx.cbuf_type ctx.cbuf (length ctx.cbuf) r.cptr ≡ some (c, cptr)
    → canon ctx c < uint32_max
    → step ctx r
      ≡ some (
          if contains ps (canon ctx c)
          then next (record r { pc = s'.size; cptr = cptr })
          else reject r.machine)
re_emit_range-step alloc h s ps h' s' ctx r c cptr post k v fits e clear code here inside char
      small =
    class-step ctx r c cptr (contents s) post (omega (arith, here, before)) (ground arith) char
      small ps s'.size k
      (code
        ∙ ap (λ l. l ++ post) appended
        ∙ append_assoc (contents s) (joined (class_pieces ps)) post)
      (omega (
        arith,
        before,
        after,
        ap length appended,
        length-joined (class_pieces ps),
        length-append (contents s) (joined (class_pieces ps)),
      ))
  where
    m : Emitted s (joined (class_pieces ps)) (re_emit_range alloc h s ps)
    m = re_emit_range-Emitted alloc h s ps k v fits

    same : m.last ≡ s'
    same = ap (λ o. elim o [ none ↦ s' | some r ↦ r.1 ]) (sym m.returns ∙ e)

    appended : contents s' ≡ contents s ++ joined (class_pieces ps)
    appended = sym (ap contents same) ∙ (m.clear (ap (λ s. s.error) same ∙ clear)).1

    valid : IsValid s'
    valid = subst IsValid same m.valid

    before : length (contents s) ≡ s.size
    before = length-take_le s.size s.buf (omega (arith, v.room, v.block))

    after : length (contents s') ≡ s'.size
    after = length-take_le s'.size s'.buf (omega (arith, valid.room, valid.block))
