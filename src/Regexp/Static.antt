-- ===== src/Regexp/Static.antt =====
-- The passes of libquickjs-sys/embed/quickjs/libregexp.c over bytecode that does not run:
-- `re_check_advance`, `re_is_simple_quantifier` and `compute_stack_size`. They share the loop
-- `while (pos < bc_buf_len)`, which is `scan` here, with what each does at an instruction as its
-- argument.
pub mod Path
pub mod Simple
pub mod Run
pub mod Body
pub mod Ends
pub mod Examples
use quickjs_rs.Base.{
  ℕ, zero, suc, ◌+◌, ◌-◌, ◌*◌, ◌<◌, ltb, leb, ◌==◌, if◌then◌else◌, Option, none, some, List, [],
  ◌∷◌, length, drop, set, get_or, replicate, Bool, true, false, not, ◌&&◌, ◌||◌, bit_or,
}
use quickjs_rs.Base.Partial.{◌>>=◌}
use quickjs_rs.Regexp.Opcode
use quickjs_rs.Regexp.Opcode.{Opcode, decode, get_u8, get_u16, size_of}

-- The opcode at `pos`; `none` is a read out of the bytecode or of `reopcode_info`.
unfoldable pub opcode_at : List ℕ → ℕ → Option Opcode
opcode_at bc pos = get_u8 bc pos >>= λ byte. decode byte

-- `len`, with the intervals of a range.
unfoldable pub length_at : List ℕ → ℕ → Opcode → Option ℕ
length_at bc pos Opcode.range =
    get_u16 bc (pos + 1) >>= λ val. some (size_of Opcode.range + val * 4)
length_at bc pos Opcode.range32 =
    get_u16 bc (pos + 1) >>= λ val. some (size_of Opcode.range32 + val * 8)
length_at bc pos op = some (size_of op)

-- What an instruction comes to: a new state, a return, or undefined behaviour.
pub data Verdict (S : Type 0) : Type 0 where
  proceed : S → Verdict S
  return bad : Verdict S

-- What the loop comes to.
pub data Scan (S : Type 0) : Type 0 where
  done : S → Scan S
  returned fault out_of_fuel : Scan S

module _ {S : Type 0} (bc : List ℕ) (visit : Opcode → ℕ → S → Verdict S) where
  -- Each round goes on by at least a byte.
  unfoldable pub scan : ℕ → ℕ → S → Scan S
  scan zero pos s = out_of_fuel
  scan (suc fuel) pos s = elim (ltb pos (length bc)) [
    | false ↦ done s
    | true ↦ elim (opcode_at bc pos) [
      | none ↦ fault
      | some op ↦ elim (visit op pos s) [
        | bad ↦ fault
        | return ↦ returned
        | proceed s' ↦ elim (length_at bc pos op) [
          | none ↦ fault
          | some len ↦ scan fuel (pos + len) s'
        ]
      ]
    ]
  ]

  unfoldable pub scan_all : S → Scan S
  unfolding scan
  scan_all s = scan (length bc + 1) 0 s

-- STACK_SIZE_MAX
abbrev pub stack_size_max_limit : ℕ
stack_size_max_limit = 255

-- `stack_size` and `stack_size_max`
pub record Sizes : Type 0 where
  pub stack_size : ℕ
  pub stack_size_max : ℕ

unfoldable pub visit_push : Sizes → Verdict Sizes
visit_push s =
    let stack_size = s.stack_size + 1 in
    if ltb s.stack_size_max stack_size
    then (if ltb stack_size_max_limit stack_size
        then return
        else proceed (record { stack_size = stack_size; stack_size_max = stack_size }))
    else proceed (record s { stack_size = stack_size })

unfoldable pub visit_pop : Sizes → Verdict Sizes
visit_pop s =
    if ltb 0 s.stack_size then proceed (record s { stack_size = s.stack_size - 1 }) else bad

unfoldable pub visit_stack : Opcode → Sizes → Verdict Sizes
unfolding visit_push visit_pop
visit_stack Opcode.push_i32 s = visit_push s
visit_stack Opcode.push_char_pos s = visit_push s
visit_stack Opcode.drop s = visit_pop s
visit_stack Opcode.bne_char_pos s = visit_pop s
visit_stack op s = proceed s

-- `assert((pos + len) <= bc_buf_len)`, before the `switch`.
unfoldable pub visit_sizes : List ℕ → Opcode → ℕ → Sizes → Verdict Sizes
unfolding visit_stack
visit_sizes bc op pos s = if leb (pos + size_of op) (length bc) then visit_stack op s else bad

-- `compute_stack_size`, behind the header of seven bytes.
unfoldable pub compute_stack_size : List ℕ → Scan Sizes
unfolding scan_all visit_sizes
compute_stack_size bc_buf =
    scan_all (drop 7 bc_buf) (visit_sizes (drop 7 bc_buf))
      (record { stack_size = 0; stack_size_max = 0 })

-- The characters that an instruction of a simple quantifier's body takes; `none` for another.
unfoldable pub simple_chars : Opcode → Option ℕ
simple_chars Opcode.range = some 1
simple_chars Opcode.range32 = some 1
simple_chars Opcode.char = some 1
simple_chars Opcode.char32 = some 1
simple_chars Opcode.dot = some 1
simple_chars Opcode.any = some 1
simple_chars Opcode.line_start = some 0
simple_chars Opcode.line_end = some 0
simple_chars Opcode.word_boundary = some 0
simple_chars Opcode.not_word_boundary = some 0
simple_chars op = none

unfoldable pub visit_simple : Opcode → ℕ → ℕ → Verdict ℕ
unfolding simple_chars
visit_simple op pos count = elim (simple_chars op) [ none ↦ return | some n ↦ proceed (count + n) ]

-- `re_is_simple_quantifier`: `returned` is -1.
unfoldable pub re_is_simple_quantifier : List ℕ → Scan ℕ
unfolding scan_all visit_simple
re_is_simple_quantifier bc = scan_all bc visit_simple 0

-- `ret`, with `none` for -2, `has_back_reference` and `capture_bitmap`.
pub record Advance : Type 0 where
  pub ret : Option Bool
  pub has_back_reference : Bool
  pub capture_bitmap : List ℕ

unfoldable pub known : Option Bool → Bool → Option Bool
known none b = some b
known (some r) b = some r

-- `capture_bitmap[val] |= bit`
unfoldable pub mark : ℕ → ℕ → Advance → Advance
mark bit val a = record a {
  capture_bitmap = set a.capture_bitmap val (bit_or (get_or a.capture_bitmap val 0) bit);
}

-- `while (val < last)`, with the rounds that are left.
unfoldable pub mark_range : ℕ → ℕ → Advance → Advance
unfolding mark
mark_range zero val a = a
mark_range (suc left) val a = mark_range left (val + 1) (mark 1 val a)

-- An operand of a byte at `pos`.
unfoldable pub with_byte : List ℕ → ℕ → (ℕ → Verdict Advance) → Verdict Advance
with_byte bc pos k = elim (get_u8 bc pos) [ none ↦ bad | some val ↦ k val ]

-- A byte that is an index into `capture_bitmap`, of CAPTURE_COUNT_MAX entries.
unfoldable pub with_capture : List ℕ → ℕ → (ℕ → Verdict Advance) → Verdict Advance
unfolding with_byte
with_capture bc pos k = with_byte bc pos λ val. if ltb val 255 then k val else bad

-- The `switch` of `re_check_advance`, by the kind of the instruction.
unfoldable pub visit_advance : List ℕ → Opcode → ℕ → Advance → Verdict Advance
unfolding known mark mark_range with_byte with_capture
visit_advance bc Opcode.range pos a = proceed (record a { ret = known a.ret true })
visit_advance bc Opcode.range32 pos a = proceed (record a { ret = known a.ret true })
visit_advance bc Opcode.char pos a = proceed (record a { ret = known a.ret true })
visit_advance bc Opcode.char32 pos a = proceed (record a { ret = known a.ret true })
visit_advance bc Opcode.dot pos a = proceed (record a { ret = known a.ret true })
visit_advance bc Opcode.any pos a = proceed (record a { ret = known a.ret true })
visit_advance bc Opcode.line_start pos a = proceed a
visit_advance bc Opcode.line_end pos a = proceed a
visit_advance bc Opcode.push_i32 pos a = proceed a
visit_advance bc Opcode.push_char_pos pos a = proceed a
visit_advance bc Opcode.drop pos a = proceed a
visit_advance bc Opcode.word_boundary pos a = proceed a
visit_advance bc Opcode.not_word_boundary pos a = proceed a
visit_advance bc Opcode.prev pos a = proceed a
visit_advance bc Opcode.save_start pos a = with_capture bc (pos + 1) λ val. proceed (mark 1 val a)
visit_advance bc Opcode.save_end pos a = with_capture bc (pos + 1) λ val. proceed (mark 1 val a)
visit_advance bc Opcode.save_reset pos a =
    with_byte bc (pos + 1)
      λ val. with_byte bc (pos + 2) λ last. proceed (mark_range (last - val) val a)
visit_advance bc Opcode.back_reference pos a =
    with_capture bc (pos + 1) λ val. proceed (record (mark 2 val a) { has_back_reference = true })
visit_advance bc Opcode.backward_back_reference pos a =
    with_capture bc (pos + 1) λ val. proceed (record (mark 2 val a) { has_back_reference = true })
visit_advance bc op pos a = proceed (record a { ret = known a.ret false })

-- Whether a capture is both saved and referred to: `capture_bitmap[i] == 3` for some `i`.
unfoldable pub saved_and_used : List ℕ → Bool
saved_and_used [] = false
saved_and_used (b ∷ bs) = b == 3 || saved_and_used bs

-- The returns of `re_check_advance`.
pub data Advancing : Type 0 where
  always sometimes depends undefined unfinished : Advancing

unfoldable pub advance_result : Scan Advance → Advancing
unfolding saved_and_used
advance_result (done a) =
    if a.has_back_reference && saved_and_used a.capture_bitmap
    then depends
    else elim a.ret [ none ↦ sometimes | some r ↦ if r then always else sometimes ]
advance_result returned = undefined
advance_result fault = undefined
advance_result out_of_fuel = unfinished

unfoldable pub re_check_advance : List ℕ → Advancing
unfolding advance_result scan_all visit_advance
re_check_advance bc = advance_result (
    scan_all bc (visit_advance bc)
      (record { ret = none; has_back_reference = false; capture_bitmap = replicate 255 0 }))
