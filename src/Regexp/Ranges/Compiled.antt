-- ===== src/Regexp/Ranges/Compiled.antt =====
-- A class of characters from the compiler to the interpreter: the instruction that `re_emit_range`
-- writes takes exactly the characters of the set.
use mathlib.Core.List.{append_assoc}
use quickjs_rs.Base.{
  ℕ, ◌+◌, ◌*◌, ◌^◌, ◌≤◌, ◌<◌, ◌≡◌, refl, sym, ap, ◌∙◌, arith, some, List, [], ◌∷◌, ◌++◌, false, leb,
  length, length-append, All,
}
use quickjs_rs.CharRange.Meaning.{contains, Strict}
use quickjs_rs.DynBuf.{le_bytes}
use quickjs_rs.DynBuf.Run.{joined}
use quickjs_rs.Regexp.Opcode.{get_u8, get_u16, get_u32}
use quickjs_rs.Regexp.Chars.{get_char}
use quickjs_rs.Regexp.Search.{low16, high16, low32, high32}
use quickjs_rs.Regexp.State.{Context, Regs, reject}
use quickjs_rs.Regexp.Step.{step, canon}
use quickjs_rs.Regexp.Emit.{uint32_max, last_code16, highest}
use quickjs_rs.Regexp.Ranges.Points.{low_of, end_of, high_of, points-Intervals, Decided-contains}
use quickjs_rs.Regexp.Ranges.Match.{match_range-Decided, match_range32-Decided}
use quickjs_rs.Regexp.Ranges.Bytes.{
  blocks, read_at, length-le_bytes, get_u16-Reads, get_u32-Reads, blocks-low, blocks-high,
}
use quickjs_rs.Regexp.Ranges.Runs.{last_code32, tested, range-step, range32-step, char32-step}
use quickjs_rs.Regexp.Ranges.Ends.{
  point_of, high_point, code32, low_narrow, narrow16, intervals16, Decided16-contains, get_or-All,
}

-- The pieces of the instruction for `n` intervals, in its two forms.
abbrev pub pieces16 : List ℕ → ℕ → List (List ℕ)
pieces16 ps n = (21 ∷ []) ∷ le_bytes 2 n ∷ blocks 2 last_code16 ps

abbrev pub pieces32 : List ℕ → ℕ → List (List ℕ)
pieces32 ps n = (22 ∷ []) ∷ le_bytes 2 n ∷ blocks 4 last_code32 ps

abbrev pub pieces_none : List (List ℕ)
pieces_none = (2 ∷ []) ∷ le_bytes 4 uint32_max ∷ []

module _ (ctx : Context) (r : Regs) (ps : List ℕ) (n c cptr : ℕ) (pre post : List ℕ)
    (strict : Strict 0 ps) (even : length ps ≡ 2 * n) (few : n < 2 ^ 16) (has : 0 < n)
    (bounded : All (λ p. p ≤ uint32_max) ps) (here : r.pc ≡ length pre)
    (more : leb (length ctx.cbuf) r.cptr ≡ false)
    (char : get_char ctx.cbuf_type ctx.cbuf (length ctx.cbuf) r.cptr ≡ some (c, cptr))
    (small : canon ctx c < uint32_max) where
  -- The instruction cut behind its opcode, and behind its operand.
  as_operand :
      (op : ℕ) (body : List ℕ)
      → pre ++ (((op ∷ []) ++ (le_bytes 2 n ++ body)) ++ post)
        ≡ (pre ++ (op ∷ [])) ++ (le_bytes 2 n ++ (body ++ post))
  as_operand op body =
      ap (λ l. pre ++ (op ∷ l)) (append_assoc (le_bytes 2 n) body post)
      ∙ sym (append_assoc pre (op ∷ []) (le_bytes 2 n ++ (body ++ post)))

  as_body :
      (op : ℕ) (body : List ℕ)
      → pre ++ (((op ∷ []) ++ (le_bytes 2 n ++ body)) ++ post)
        ≡ (pre ++ (op ∷ le_bytes 2 n)) ++ (body ++ post)
  as_body op body =
      ap (λ l. pre ++ (op ∷ l)) (append_assoc (le_bytes 2 n) body post)
      ∙ sym (append_assoc pre (op ∷ le_bytes 2 n) (body ++ post))

  module _ (op : ℕ) (body : List ℕ)
      (code : ctx.bc ≡ pre ++ (((op ∷ []) ++ (le_bytes 2 n ++ body)) ++ post)) where
    opcode_there : get_u8 ctx.bc r.pc ≡ some op
    unfolding get_u8
    opcode_there = rw (code, here) (read_at pre _ (length pre) refl)

    operand_there : get_u16 ctx.bc (r.pc + 1) ≡ some n
    operand_there =
        rw (code, as_operand op body)
          (get_u16-Reads (pre ++ (op ∷ [])) (body ++ post) (r.pc + 1) n
            (omega (arith, here, length-append pre (op ∷ []))) few)

    body_at : r.pc + 1 + 2 ≡ length (pre ++ (op ∷ le_bytes 2 n))
    body_at = omega (arith, here, length-append pre (op ∷ le_bytes 2 n), length-le_bytes 2 n)

  pub step-16 :
      ctx.bc ≡ pre ++ (joined (pieces16 ps n) ++ post)
      → (high : ℕ) → highest ps ≡ some high
      → high ≤ 0xffff
      → step ctx r ≡ some (tested r cptr (contains ps (canon ctx c)) (r.pc + 1 + 2 + 4 * n))
  step-16 code high e narrow =
      range-step ctx r c cptr (contains ps (canon ctx c)) more char n (operand_there 21 body code)
        (opcode_there 21 body code)
        (Decided16-contains ps n strict even bounded high high_is narrow (canon ctx c) _ small (
          match_range-Decided ctx.bc (r.pc + 1 + 2) n (low_of ps) (λ i. last_code16 (end_of ps i))
            (intervals16 ps n strict even bounded high high_is narrow) has few (canon ctx c) low_is
            ends_is (narrow16 ps n strict even bounded high high_is narrow)))
    where
      body : List ℕ
      body = joined (blocks 2 last_code16 ps)

      high_is : point_of ps ≡ high
      high_is =
          let same : some (point_of ps) ≡ some high =
            sym (high_point ps n strict even bounded has) ∙ e in
          cc

      low_is : (i : ℕ) → i < n → low16 ctx.bc (r.pc + 1 + 2) i ≡ some (low_of ps i)
      low_is i h =
          rw (code, as_body 21 body)
            (blocks-low 2 get_u16 get_u16-Reads last_code16 4 refl ps _ post n i
              (r.pc + 1 + 2 + i * 4) even h
              (omega (arith, low_narrow ps n strict even bounded high high_is narrow i h))
              (omega (arith, body_at 21 body code)))

      ends_is : (i : ℕ) → i < n → high16 ctx.bc (r.pc + 1 + 2) i ≡ some (last_code16 (end_of ps i))
      ends_is i h =
          rw (code, as_body 21 body)
            (blocks-high 2 get_u16 get_u16-Reads last_code16 4 refl ps _ post n i
              (r.pc + 1 + 2 + i * 4 + 2) even h
              (omega (arith, narrow16 ps n strict even bounded high high_is narrow i h))
              (omega (arith, body_at 21 body code)))

  pub step-32 :
      ctx.bc ≡ pre ++ (joined (pieces32 ps n) ++ post)
      → step ctx r ≡ some (tested r cptr (contains ps (canon ctx c)) (r.pc + 1 + 2 + 8 * n))
  step-32 code =
      range32-step ctx r c cptr (contains ps (canon ctx c)) more char n (operand_there 22 body code)
        (opcode_there 22 body code)
        (Decided-contains ps n (canon ctx c) _ strict even (
          match_range32-Decided ctx.bc (r.pc + 1 + 2) n (low_of ps) (high_of ps)
            (points-Intervals ps n strict even) has few (canon ctx c) low_is ends_is))
    where
      body : List ℕ
      body = joined (blocks 4 last_code32 ps)

      low_is : (i : ℕ) → i < n → low32 ctx.bc (r.pc + 1 + 2) i ≡ some (low_of ps i)
      low_is i h =
          rw (code, as_body 22 body)
            (blocks-low 4 get_u32 get_u32-Reads last_code32 8 refl ps _ post n i
              (r.pc + 1 + 2 + i * 8) even h
              (omega (arith, get_or-All uint32_max ps (2 * i) bounded (omega arith)))
              (omega (arith, body_at 22 body code)))

      ends_is : (i : ℕ) → i < n → high32 ctx.bc (r.pc + 1 + 2) i ≡ some (high_of ps i)
      ends_is i h =
          rw (code, as_body 22 body)
            (blocks-high 4 get_u32 get_u32-Reads last_code32 8 refl ps _ post n i
                (r.pc + 1 + 2 + i * 8 + 4) even h
                (omega (
                  arith,
                  code32 ps n strict even bounded i h,
                  get_or-All uint32_max ps (2 * i + 1) bounded (omega arith),
                ))
                (omega (arith, body_at 22 body code))
              ∙ ap some (code32 ps n strict even bounded i h))

-- The instruction for no interval matches nothing.
pub step-none :
    (ctx : Context) (r : Regs) (c cptr : ℕ) (pre post : List ℕ)
    → r.pc ≡ length pre
    → leb (length ctx.cbuf) r.cptr ≡ false
    → get_char ctx.cbuf_type ctx.cbuf (length ctx.cbuf) r.cptr ≡ some (c, cptr)
    → canon ctx c < uint32_max
    → ctx.bc ≡ pre ++ (joined pieces_none ++ post)
    → step ctx r ≡ some (reject r.machine)
unfolding get_u8 get_u32 le_bytes
step-none ctx r c cptr pre post here more char small code =
    char32-step ctx r c cptr false more char uint32_max
      (rw (code, here) (read_at pre _ (length pre) refl))
      (rw (code, sym (append_assoc pre (2 ∷ []) (le_bytes 4 uint32_max ++ post)))
        (get_u32-Reads (pre ++ (2 ∷ [])) post (r.pc + 1) uint32_max
          (omega (arith, here, length-append pre (2 ∷ []))) (omega arith)))
      (ground arith)
