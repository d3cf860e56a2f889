-- ===== src/Regexp/Static/Path.antt =====
-- Reads of opcodes from the bytecode, and the length of an instruction.
use quickjs_rs.Base.{
  ℕ, ◌+◌, ◌<◌, ◌≡◌, arith, Option, none, some, List, length, get_elem?, lt_of_get_elem?,
  Option-cases, inl, inr,
}
use quickjs_rs.Regexp.Opcode.{Opcode, decode, get_u8, get_u16}
use quickjs_rs.Regexp.Bounds.{Ensures, Ensures-then}
use quickjs_rs.Regexp.Static.{opcode_at, length_at}
use quickjs_rs.Base.Partial.{◌>>=◌}

pub Ensures-value {ℓ κ} :
    {A : Type ℓ} (P : A → Type κ) (o : Option A) (a : A) → Ensures P o → o ≡ some a → P a
Ensures-value P none a h e = absurd (let no_value : ⊥ = cc in no_value)
Ensures-value P (some b) a h e = rw (let same : a ≡ b = cc in same) h

-- An opcode is read from a byte of the bytecode.
pub opcode_at-lt :
    (bc : List ℕ) (pos : ℕ) (op : Opcode) → opcode_at bc pos ≡ some op → pos < length bc
unfolding opcode_at get_u8
opcode_at-lt bc pos op e = elim (Option-cases (get_elem? bc pos)) [
  | inl missing ↦ absurd (let no_op : ⊥ = nothing (get_elem? bc pos) missing e in no_op)
  | inr (byte, there) ↦ lt_of_get_elem? bc pos byte there
]
  where
    nothing : (o : Option ℕ) → o ≡ none → (o >>= λ byte. decode byte) ≡ some op → ⊥
    nothing none m h = cc
    nothing (some b) m h = cc

-- Each instruction has a byte at least.
pub length_at-pos :
    (bc : List ℕ) (pos : ℕ) (op : Opcode) → Ensures (λ len. 0 < len) (length_at bc pos op)
unfolding length_at
length_at-pos bc pos Opcode.invalid = omega arith
length_at-pos bc pos Opcode.char = omega arith
length_at-pos bc pos Opcode.char32 = omega arith
length_at-pos bc pos Opcode.dot = omega arith
length_at-pos bc pos Opcode.any = omega arith
length_at-pos bc pos Opcode.line_start = omega arith
length_at-pos bc pos Opcode.line_end = omega arith
length_at-pos bc pos Opcode.goto = omega arith
length_at-pos bc pos Opcode.split_goto_first = omega arith
length_at-pos bc pos Opcode.split_next_first = omega arith
length_at-pos bc pos Opcode.matched = omega arith
length_at-pos bc pos Opcode.save_start = omega arith
length_at-pos bc pos Opcode.save_end = omega arith
length_at-pos bc pos Opcode.save_reset = omega arith
length_at-pos bc pos Opcode.loop = omega arith
length_at-pos bc pos Opcode.push_i32 = omega arith
length_at-pos bc pos Opcode.drop = omega arith
length_at-pos bc pos Opcode.word_boundary = omega arith
length_at-pos bc pos Opcode.not_word_boundary = omega arith
length_at-pos bc pos Opcode.back_reference = omega arith
length_at-pos bc pos Opcode.backward_back_reference = omega arith
length_at-pos bc pos Opcode.range =
    Ensures-then (λ len. 0 < len) (get_u16 bc (pos + 1)) _ λ val. omega arith
length_at-pos bc pos Opcode.range32 =
    Ensures-then (λ len. 0 < len) (get_u16 bc (pos + 1)) _ λ val. omega arith
length_at-pos bc pos Opcode.lookahead = omega arith
length_at-pos bc pos Opcode.negative_lookahead = omega arith
length_at-pos bc pos Opcode.push_char_pos = omega arith
length_at-pos bc pos Opcode.bne_char_pos = omega arith
length_at-pos bc pos Opcode.prev = omega arith
length_at-pos bc pos Opcode.simple_greedy_quant = omega arith
