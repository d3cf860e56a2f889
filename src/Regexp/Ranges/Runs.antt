-- ===== src/Regexp/Ranges/Runs.antt =====
-- The emitters as runs of appends to the buffer, and an instruction of ranges as it runs.
use quickjs_rs.Base.{
  ℕ, ◌+◌, ◌*◌, ◌≡◌, refl, ap, ◌∙◌, Option, none, some, List, [], ◌∷◌, Bool, true, false, leb, ◌==◌,
  length, if◌then◌else◌, u8, u32, ◌-◌, ◌^◌,
}
use quickjs_rs.Base.Partial.{◌>>=◌, bind_some, bind_ext, bind_assoc}
use quickjs_rs.CharRange.Meaning.{IsEven}
use quickjs_rs.DynBuf.{DynBuf, Done, le_bytes, dbuf_put, dbuf_putc, dbuf_put_u16, dbuf_put_u32}
use quickjs_rs.DynBuf.Memory.{Allocator}
use quickjs_rs.DynBuf.Run.{puts}
use quickjs_rs.Regexp.Opcode.{decode, get_u8, get_u16, get_u32}
use quickjs_rs.Regexp.Chars.{get_char}
use quickjs_rs.Regexp.State.{Context, Regs, Step, next, reject}
use quickjs_rs.Regexp.Search.{match_range, match_range32}
use quickjs_rs.Regexp.Step.{with_char, do_range, do_range32, dispatch, step, test_char, canon}
use quickjs_rs.Regexp.Emit.{
  ignoring, last_code16, emit_ranges16, emit_ranges32, re_emit_op_u16, re_emit_op_u32,
}
use quickjs_rs.Regexp.Ranges.Bytes.{blocks}

-- The last code of an interval in 32 bits.
abbrev pub last_code32 : ℕ → ℕ
last_code32 point = u32 (point + 2 ^ 32 - 1)

module _ {H : Type 0} (alloc : Allocator H) where
  abbrev State : Type 0
  State = H × DynBuf

  puts_first :
      (o : Option (Done alloc)) (cs : List (List ℕ))
      → (ignoring alloc o >>= λ r. puts alloc r.0 r.1 cs)
        ≡ elim o [ none ↦ none | some (h', s', _) ↦ puts alloc h' s' cs ]
  unfolding ignoring
  puts_first none cs = refl
  puts_first (some r) cs = refl

  pub puts-cons :
      (h : H) (s : DynBuf) (c : List ℕ) (cs : List (List ℕ)) (f : State → Option State)
      → ((h' : H) (s' : DynBuf) → f (h', s') ≡ puts alloc h' s' cs)
      → (ignoring alloc (dbuf_put alloc h s c) >>= f) ≡ puts alloc h s (c ∷ cs)
  unfolding puts
  puts-cons h s c cs f e =
      bind_ext (ignoring alloc (dbuf_put alloc h s c)) f (λ r. puts alloc r.0 r.1 cs)
        (λ r. e r.0 r.1)
      ∙ puts_first (dbuf_put alloc h s c) cs

  emit_ranges16-puts :
      (h : H) (s : DynBuf) (ps : List ℕ)
      → IsEven ps
      → emit_ranges16 alloc h s ps ≡ puts alloc h s (blocks 2 last_code16 ps)
  unfolding emit_ranges16 puts dbuf_put_u16
  emit_ranges16-puts h s [] e = refl
  emit_ranges16-puts h s (lo ∷ []) e = absurd e
  emit_ranges16-puts h s (lo ∷ hi ∷ ps) e =
      puts-cons h s (le_bytes 2 lo) (le_bytes 2 (last_code16 hi) ∷ blocks 2 last_code16 ps) _
        (λ h' s'.
          puts-cons h' s' (le_bytes 2 (last_code16 hi)) (blocks 2 last_code16 ps) _
            (λ h'' s''. emit_ranges16-puts h'' s'' ps e))

  emit_ranges32-puts :
      (h : H) (s : DynBuf) (ps : List ℕ)
      → IsEven ps
      → emit_ranges32 alloc h s ps ≡ puts alloc h s (blocks 4 last_code32 ps)
  unfolding emit_ranges32 puts dbuf_put_u32
  emit_ranges32-puts h s [] e = refl
  emit_ranges32-puts h s (lo ∷ []) e = absurd e
  emit_ranges32-puts h s (lo ∷ hi ∷ ps) e =
      puts-cons h s (le_bytes 4 lo) (le_bytes 4 (last_code32 hi) ∷ blocks 4 last_code32 ps) _
        (λ h' s'.
          puts-cons h' s' (le_bytes 4 (last_code32 hi)) (blocks 4 last_code32 ps) _
            (λ h'' s''. emit_ranges32-puts h'' s'' ps e))

  -- An instruction with a 16-bit operand, and what follows it.
  op_u16-puts :
      (h : H) (s : DynBuf) (op val : ℕ) (cs : List (List ℕ)) (f : State → Option State)
      → ((h' : H) (s' : DynBuf) → f (h', s') ≡ puts alloc h' s' cs)
      → (re_emit_op_u16 alloc h s op val >>= f)
        ≡ puts alloc h s ((u8 op ∷ []) ∷ le_bytes 2 val ∷ cs)
  unfolding re_emit_op_u16 dbuf_putc dbuf_put_u16
  op_u16-puts h s op val cs f e =
      bind_assoc (ignoring alloc (dbuf_put alloc h s (u8 op ∷ []))) _ f
      ∙ puts-cons h s (u8 op ∷ []) (le_bytes 2 val ∷ cs) _
          (λ h' s'. puts-cons h' s' (le_bytes 2 val) cs f e)

  pub ranges16-puts :
      (h : H) (s : DynBuf) (op val : ℕ) (ps : List ℕ)
      → IsEven ps
      → (re_emit_op_u16 alloc h s op val >>= λ (h', s'). emit_ranges16 alloc h' s' ps)
        ≡ puts alloc h s ((u8 op ∷ []) ∷ le_bytes 2 val ∷ blocks 2 last_code16 ps)
  ranges16-puts h s op val ps e =
      op_u16-puts h s op val (blocks 2 last_code16 ps) _ (λ h' s'. emit_ranges16-puts h' s' ps e)

  pub ranges32-puts :
      (h : H) (s : DynBuf) (op val : ℕ) (ps : List ℕ)
      → IsEven ps
      → (re_emit_op_u16 alloc h s op val >>= λ (h', s'). emit_ranges32 alloc h' s' ps)
        ≡ puts alloc h s ((u8 op ∷ []) ∷ le_bytes 2 val ∷ blocks 4 last_code32 ps)
  ranges32-puts h s op val ps e =
      op_u16-puts h s op val (blocks 4 last_code32 ps) _ (λ h' s'. emit_ranges32-puts h' s' ps e)

  -- The result of a run, with a last part that the code adds.
  abbrev pub with_flag : Option State → Option (H × DynBuf × Bool)
  with_flag o = o >>= λ r. some (r.0, r.1, true)

  value_flag :
      (pos : ℕ) (o : Option (Done alloc))
      → ((ignoring alloc o >>= λ (h', s'). some (h', s', pos)) >>= λ (h', s', pos).
          some (h', s', true))
        ≡ with_flag (ignoring alloc o)
  unfolding ignoring
  value_flag pos none = refl
  value_flag pos (some r) = refl

  two_flag :
      (o : Option (Done alloc)) (k : H → DynBuf → Option (Done alloc))
      → ((ignoring alloc o >>= λ (h', s').
            ignoring alloc (k h' s') >>= λ (h'', s''). some (h'', s'', s'.size))
          >>= λ (h', s', pos). some (h', s', true))
        ≡ with_flag (ignoring alloc o >>= λ (h', s'). ignoring alloc (k h' s'))
  unfolding ignoring
  two_flag none k = refl
  two_flag (some (h', s', ok)) k = value_flag s'.size (k h' s')

  one_put :
      (h : H) (s : DynBuf) (c : List ℕ)
      → ignoring alloc (dbuf_put alloc h s c) ≡ puts alloc h s (c ∷ [])
  unfolding ignoring puts
  one_put h s c = one (dbuf_put alloc h s c)
    where
      one :
          (o : Option (Done alloc))
          → ignoring alloc o ≡ elim o [ none ↦ none | some (h', s', _) ↦ some (h', s') ]
      one none = refl
      one (some r) = refl

  pub char32-puts :
      (h : H) (s : DynBuf) (op val : ℕ)
      → (re_emit_op_u32 alloc h s op val >>= λ (h', s', pos). some (h', s', true))
        ≡ with_flag (puts alloc h s ((u8 op ∷ []) ∷ le_bytes 4 val ∷ []))
  unfolding re_emit_op_u32 dbuf_putc dbuf_put_u32
  char32-puts h s op val =
      two_flag (dbuf_put alloc h s (u8 op ∷ [])) (λ h' s'. dbuf_put alloc h' s' (le_bytes 4 val))
      ∙ ap with_flag (
          puts-cons h s (u8 op ∷ []) (le_bytes 4 val ∷ []) _
            (λ h' s'. one_put h' s' (le_bytes 4 val)))

-- What a test of one character leaves.
abbrev pub tested : Regs → ℕ → Bool → ℕ → Step
tested r cptr ok pc = if ok then next (record r { pc = pc; cptr = cptr }) else reject r.machine

module _ (ctx : Context) (r : Regs) (c cptr : ℕ) (ok : Bool)
    (more : leb (length ctx.cbuf) r.cptr ≡ false)
    (char : get_char ctx.cbuf_type ctx.cbuf (length ctx.cbuf) r.cptr ≡ some (c, cptr)) where
  with_char-tested :
      (pc0 : ℕ) (test : ℕ → Option Bool) (pc : ℕ)
      → test c ≡ some ok
      → with_char ctx (record r { pc = pc0 }) test pc ≡ some (tested r cptr ok pc)
  unfolding with_char
  with_char-tested pc0 test pc answer =
      rw (more, with_char) (bind_some _ (c, cptr) _ char ∙ bind_some (test c) ok _ answer)

  -- `char32`
  pub char32-step :
      (val : ℕ)
      → get_u8 ctx.bc r.pc ≡ some 2
      → get_u32 ctx.bc (r.pc + 1) ≡ some val
      → (val == canon ctx c) ≡ ok
      → step ctx r ≡ some (tested r cptr ok (r.pc + 1 + 4))
  unfolding step dispatch test_char decode
  char32-step val opcode operand answer =
      bind_some _ 2 _ opcode
      ∙ bind_some _ val _ operand
      ∙ with_char-tested (r.pc + 1) (λ c. some (val == canon ctx c)) (r.pc + 1 + 4) (ap some answer)

  -- `range` and `range32`
  module _ (n : ℕ) (operand : get_u16 ctx.bc (r.pc + 1) ≡ some n) where
    pub range-step :
        get_u8 ctx.bc r.pc ≡ some 21
        → match_range ctx.bc (r.pc + 1 + 2) n (canon ctx c) ≡ some ok
        → step ctx r ≡ some (tested r cptr ok (r.pc + 1 + 2 + 4 * n))
    unfolding step dispatch do_range decode
    range-step opcode answer =
        bind_some _ 21 _ opcode
        ∙ bind_some _ n _ operand
        ∙ with_char-tested (r.pc + 1) (λ c. match_range ctx.bc (r.pc + 1 + 2) n (canon ctx c))
            (r.pc + 1 + 2 + 4 * n) answer

    pub range32-step :
        get_u8 ctx.bc r.pc ≡ some 22
        → match_range32 ctx.bc (r.pc + 1 + 2) n (canon ctx c) ≡ some ok
        → step ctx r ≡ some (tested r cptr ok (r.pc + 1 + 2 + 8 * n))
    unfolding step dispatch do_range32 decode
    range32-step opcode answer =
        bind_some _ 22 _ opcode
        ∙ bind_some _ n _ operand
        ∙ with_char-tested (r.pc + 1) (λ c. match_range32 ctx.bc (r.pc + 1 + 2) n (canon ctx c))
            (r.pc + 1 + 2 + 8 * n) answer
