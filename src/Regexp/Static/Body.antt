-- ===== src/Regexp/Static/Body.antt =====
-- The body of a simple quantifier as `re_is_simple_quantifier` sees it, and the same bytes in the
-- bytecode that runs, with `REOP_match` behind them.
use quickjs_rs.Base.{
  ℕ, zero, suc, ◌+◌, ◌*◌, ◌^◌, ◌≤◌, ◌<◌, ◌≡◌, refl, arith, Option, none, some, List, ◌∷◌, ◌++◌,
  length, get_elem?, Option-cases, inl, inr, sym, ◌∙◌, ap, length-append, get_elem?-append_left,
  get_elem?-append_right,
}
use quickjs_rs.Base.Partial.{◌>>=◌}
use quickjs_rs.Regexp.Opcode.{Opcode, decode, get_u8, get_u16}
use quickjs_rs.Regexp.State.{Context, Regs}
use quickjs_rs.Regexp.Bounds.Handlers.{Operands, class_fits}
use quickjs_rs.Regexp.Static.{opcode_at, length_at, simple_chars}

-- A class of characters has an interval: it is longer than its head.
abbrev pub HasInterval : Opcode → ℕ → Type 0
HasInterval Opcode.range len = 3 < len
HasInterval Opcode.range32 len = 3 < len
HasInterval op len = Unit

-- From `pos` on the body is made of instructions, and ends with one.
pub data Code (body : List ℕ) : ℕ → Type 0 where
  ended : {pos : ℕ} → pos ≡ length body → Code body pos
  instruction :
      {pos len : ℕ} {op : Opcode}
      → opcode_at body pos ≡ some op
      → length_at body pos op ≡ some len
      → HasInterval op len
      → Code body (pos + len)
      → Code body pos

pub Code-le : (body : List ℕ) (pos : ℕ) → Code body pos → pos ≤ length body
Code-le body pos (ended e) = omega (arith, e)
Code-le body pos (instruction {len = len} eo el some_interval rest) =
    omega (arith, Code-le body (pos + len) rest)

module _ (bc pre body rest : List ℕ) (whole : bc ≡ pre ++ (body ++ (10 ∷ rest))) where
  embedded : (i x : ℕ) → get_elem? body i ≡ some x → get_elem? bc (length pre + i) ≡ some x
  embedded i x e =
      ap (λ l. get_elem? l (length pre + i)) whole
      ∙ get_elem?-append_right pre (body ++ (10 ∷ rest)) i
      ∙ get_elem?-append_left body (10 ∷ rest) i x e

  pub whole_length : length bc ≡ length pre + length body + 1 + length rest
  whole_length = omega (
    arith,
    ap length whole,
    length-append pre (body ++ (10 ∷ rest)),
    length-append body (10 ∷ rest),
  )

  -- The `REOP_match` behind the body.
  pub match_behind : opcode_at bc (length pre + length body) ≡ some Opcode.matched
  unfolding opcode_at get_u8 decode
  match_behind =
      let there : get_elem? bc (length pre + length body) ≡ some 10 =
        ap (λ l. get_elem? l (length pre + length body)) whole
        ∙ get_elem?-append_right pre (body ++ (10 ∷ rest)) (length body)
        ∙ ap (get_elem? (body ++ (10 ∷ rest)))
            (let same : length body ≡ length body + 0 = omega arith in same)
        ∙ get_elem?-append_right body (10 ∷ rest) 0 in
      rw there refl

  pub opcode_at-embedded :
      (i : ℕ) (op : Opcode) → opcode_at body i ≡ some op → opcode_at bc (length pre + i) ≡ some op
  unfolding opcode_at get_u8
  opcode_at-embedded i op e = elim (Option-cases (get_elem? body i)) [
    | inl missing ↦ absurd (let no_op : ⊥ = nothing (get_elem? body i) missing e in no_op)
    | inr (byte, there) ↦ rw (embedded i byte there) (moved (get_elem? body i) byte there e)
  ]
    where
      nothing : (o : Option ℕ) → o ≡ none → (o >>= λ byte. decode byte) ≡ some op → ⊥
      nothing none m h = cc
      nothing (some b) m h = cc

      moved :
          (o : Option ℕ) (byte : ℕ)
          → o ≡ some byte
          → (o >>= λ byte. decode byte) ≡ some op
          → decode byte ≡ some op
      moved none byte m h = absurd (let no : ⊥ = cc in no)
      moved (some b) byte m h = let same : b ≡ byte = cc in rw (sym same) h

  get_u16-embedded : (i x : ℕ) → get_u16 body i ≡ some x → get_u16 bc (length pre + i) ≡ some x
  unfolding get_u16
  get_u16-embedded i x e = elim (Option-cases (get_elem? body i)) [
    | inl gone ↦ absurd (let no : ⊥ = first_gone (get_elem? body i) gone e in no)
    | inr (b0, e0) ↦ elim (Option-cases (get_elem? body (i + 1))) [
      | inl gone ↦
          absurd (let no : ⊥ = second_gone (get_elem? body i) (get_elem? body (i + 1)) gone e in no)
      | inr (b1, e1) ↦
          let next : length pre + i + 1 ≡ length pre + (i + 1) = omega arith in
          rw (embedded i b0 e0, next, embedded (i + 1) b1 e1)
            (both (get_elem? body i) (get_elem? body (i + 1)) b0 b1 e0 e1 e)
    ]
  ]
    where
      first_gone :
          (o : Option ℕ)
          → o ≡ none
          → (o >>= λ b0. get_elem? body (i + 1) >>= λ b1. some (b0 + b1 * 2 ^ 8)) ≡ some x
          → ⊥
      first_gone none m h = cc
      first_gone (some b) m h = cc

      second_gone :
          (o o' : Option ℕ)
          → o' ≡ none
          → (o >>= λ b0. o' >>= λ b1. some (b0 + b1 * 2 ^ 8)) ≡ some x
          → ⊥
      second_gone none o' m h = cc
      second_gone (some b) none m h = cc
      second_gone (some b) (some b') m h = cc

      both :
          (o o' : Option ℕ) (b0 b1 : ℕ)
          → o ≡ some b0
          → o' ≡ some b1
          → (o >>= λ b0. o' >>= λ b1. some (b0 + b1 * 2 ^ 8)) ≡ some x
          → some (b0 + b1 * 2 ^ 8) ≡ some x
      both none o' b0 b1 m m' h = absurd (let no : ⊥ = cc in no)
      both (some b) none b0 b1 m m' h = absurd (let no : ⊥ = cc in no)
      both (some b) (some b') b0 b1 m m' h =
          let same : b ≡ b0 = cc in let same' : b' ≡ b1 = cc in rw (sym same, sym same') h

  -- The length of a class, from its number of intervals.
  class-embedded :
      (i width size : ℕ)
      → (get_u16 body (i + 1) >>= λ val. some (3 + val * width)) ≡ some size
      → (get_u16 bc (length pre + i + 1) >>= λ val. some (3 + val * width)) ≡ some size
  class-embedded i width size e = elim (Option-cases (get_u16 body (i + 1))) [
    | inl gone ↦ absurd (let no : ⊥ = nothing (get_u16 body (i + 1)) gone e in no)
    | inr (n, there) ↦
        let next : length pre + i + 1 ≡ length pre + (i + 1) = omega arith in
        rw (next, get_u16-embedded (i + 1) n there)
          (ap some (class_fits i n width size (get_u16 body (i + 1)) there e))
  ]
    where
      nothing : (o : Option ℕ) → o ≡ none → (o >>= λ val. some (3 + val * width)) ≡ some size → ⊥
      nothing none m h = cc
      nothing (some b) m h = cc

  pub length_at-embedded :
      (i : ℕ) (op : Opcode) (len : ℕ)
      → length_at body i op ≡ some len
      → length_at bc (length pre + i) op ≡ some len
  unfolding length_at
  length_at-embedded i Opcode.invalid len l = l
  length_at-embedded i Opcode.char len l = l
  length_at-embedded i Opcode.char32 len l = l
  length_at-embedded i Opcode.dot len l = l
  length_at-embedded i Opcode.any len l = l
  length_at-embedded i Opcode.line_start len l = l
  length_at-embedded i Opcode.line_end len l = l
  length_at-embedded i Opcode.goto len l = l
  length_at-embedded i Opcode.split_goto_first len l = l
  length_at-embedded i Opcode.split_next_first len l = l
  length_at-embedded i Opcode.matched len l = l
  length_at-embedded i Opcode.save_start len l = l
  length_at-embedded i Opcode.save_end len l = l
  length_at-embedded i Opcode.save_reset len l = l
  length_at-embedded i Opcode.loop len l = l
  length_at-embedded i Opcode.push_i32 len l = l
  length_at-embedded i Opcode.drop len l = l
  length_at-embedded i Opcode.word_boundary len l = l
  length_at-embedded i Opcode.not_word_boundary len l = l
  length_at-embedded i Opcode.back_reference len l = l
  length_at-embedded i Opcode.backward_back_reference len l = l
  length_at-embedded i Opcode.range len l = class-embedded i 4 len l
  length_at-embedded i Opcode.range32 len l = class-embedded i 8 len l
  length_at-embedded i Opcode.lookahead len l = l
  length_at-embedded i Opcode.negative_lookahead len l = l
  length_at-embedded i Opcode.push_char_pos len l = l
  length_at-embedded i Opcode.bne_char_pos len l = l
  length_at-embedded i Opcode.prev len l = l
  length_at-embedded i Opcode.simple_greedy_quant len l = l

-- What a simple instruction asks of its operands is that a class has an interval.
module _ (ctx : Context) (r : Regs) where
  class_count :
      (pos width size n : ℕ)
      → (get_u16 ctx.bc pos >>= λ val. some (3 + val * width)) ≡ some size
      → 3 < size
      → get_u16 ctx.bc pos ≡ some n
      → 0 < n
  class_count pos width size zero l more e = absurd (
      let bytes : 3 + 0 * width ≡ size = class_fits pos 0 width size (get_u16 ctx.bc pos) e l in
      omega arith)
  class_count pos width size (suc n) l more e = omega arith

  pub simple-Operands :
      (op : Opcode) (n size : ℕ)
      → simple_chars op ≡ some n
      → length_at ctx.bc r.pc op ≡ some size
      → HasInterval op size
      → Operands ctx op (record r { pc = r.pc + 1 })
  unfolding simple_chars length_at
  simple-Operands Opcode.invalid n size c l more = absurd (let not_simple : ⊥ = cc in not_simple)
  simple-Operands Opcode.char n size c l more = tt
  simple-Operands Opcode.char32 n size c l more = tt
  simple-Operands Opcode.dot n size c l more = tt
  simple-Operands Opcode.any n size c l more = tt
  simple-Operands Opcode.line_start n size c l more = tt
  simple-Operands Opcode.line_end n size c l more = tt
  simple-Operands Opcode.goto n size c l more = absurd (let not_simple : ⊥ = cc in not_simple)
  simple-Operands Opcode.split_goto_first n size c l more =
      absurd (let not_simple : ⊥ = cc in not_simple)
  simple-Operands Opcode.split_next_first n size c l more =
      absurd (let not_simple : ⊥ = cc in not_simple)
  simple-Operands Opcode.matched n size c l more = tt
  simple-Operands Opcode.save_start n size c l more = absurd (let not_simple : ⊥ = cc in not_simple)
  simple-Operands Opcode.save_end n size c l more = absurd (let not_simple : ⊥ = cc in not_simple)
  simple-Operands Opcode.save_reset n size c l more = absurd (let not_simple : ⊥ = cc in not_simple)
  simple-Operands Opcode.loop n size c l more = absurd (let not_simple : ⊥ = cc in not_simple)
  simple-Operands Opcode.push_i32 n size c l more = absurd (let not_simple : ⊥ = cc in not_simple)
  simple-Operands Opcode.drop n size c l more = absurd (let not_simple : ⊥ = cc in not_simple)
  simple-Operands Opcode.word_boundary n size c l more = tt
  simple-Operands Opcode.not_word_boundary n size c l more = tt
  simple-Operands Opcode.back_reference n size c l more =
      absurd (let not_simple : ⊥ = cc in not_simple)
  simple-Operands Opcode.backward_back_reference n size c l more =
      absurd (let not_simple : ⊥ = cc in not_simple)
  simple-Operands Opcode.range n size c l more = λ k e. class_count (r.pc + 1) 4 size k l more e
  simple-Operands Opcode.range32 n size c l more = λ k e. class_count (r.pc + 1) 8 size k l more e
  simple-Operands Opcode.lookahead n size c l more = absurd (let not_simple : ⊥ = cc in not_simple)
  simple-Operands Opcode.negative_lookahead n size c l more =
      absurd (let not_simple : ⊥ = cc in not_simple)
  simple-Operands Opcode.push_char_pos n size c l more =
      absurd (let not_simple : ⊥ = cc in not_simple)
  simple-Operands Opcode.bne_char_pos n size c l more =
      absurd (let not_simple : ⊥ = cc in not_simple)
  simple-Operands Opcode.prev n size c l more = tt
  simple-Operands Opcode.simple_greedy_quant n size c l more =
      absurd (let not_simple : ⊥ = cc in not_simple)
