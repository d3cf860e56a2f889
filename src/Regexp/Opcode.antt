-- ===== src/Regexp/Opcode.antt =====
-- The opcodes of libregexp-opcode.h, and reads from the bytecode. `none` is a read out of it.
use quickjs_rs.Base.{ℕ, ◌+◌, ◌-◌, ◌*◌, ◌^◌, ltb, if◌then◌else◌, Option, none, some}
use quickjs_rs.Base.{List, [], ◌∷◌, get_elem?}
use quickjs_rs.Base.Partial.{◌>>=◌}

-- `REOPCodeEnum`
pub data Opcode : Type 0 where
  invalid char char32 dot any line_start line_end goto split_goto_first split_next_first : Opcode
  matched save_start save_end save_reset loop push_i32 drop word_boundary : Opcode
  not_word_boundary back_reference backward_back_reference range range32 lookahead : Opcode
  negative_lookahead push_char_pos bne_char_pos prev simple_greedy_quant : Opcode

abbrev pub opcodes : List Opcode
opcodes =
    invalid ∷ char ∷ char32 ∷ dot ∷ any ∷ line_start ∷ line_end ∷ goto ∷ split_goto_first
    ∷ split_next_first ∷ matched ∷ save_start ∷ save_end ∷ save_reset ∷ loop ∷ push_i32 ∷ drop
    ∷ word_boundary ∷ not_word_boundary ∷ back_reference ∷ backward_back_reference ∷ range ∷ range32
    ∷ lookahead ∷ negative_lookahead ∷ push_char_pos ∷ bne_char_pos ∷ prev ∷ simple_greedy_quant
    ∷ []

-- `reopcode_info[opcode].size`
abbrev pub size_of : Opcode → ℕ
size_of char = 3
size_of char32 = 5
size_of goto = 5
size_of split_goto_first = 5
size_of split_next_first = 5
size_of save_start = 2
size_of save_end = 2
size_of save_reset = 3
size_of loop = 5
size_of push_i32 = 5
size_of back_reference = 2
size_of backward_back_reference = 2
size_of range = 3
size_of range32 = 3
size_of lookahead = 5
size_of negative_lookahead = 5
size_of bne_char_pos = 5
size_of simple_greedy_quant = 17
size_of _ = 1

unfoldable pub decode : ℕ → Option Opcode
decode n = get_elem? opcodes n

unfoldable pub get_u8 : List ℕ → ℕ → Option ℕ
get_u8 buf pos = get_elem? buf pos

-- Little-endian words at any address.
unfoldable pub get_u16 : List ℕ → ℕ → Option ℕ
get_u16 buf pos = do b0 ← get_elem? buf pos; b1 ← get_elem? buf (pos + 1); some (b0 + b1 * 2 ^ 8)

unfoldable pub get_u32 : List ℕ → ℕ → Option ℕ
get_u32 buf pos = do
  b0 ← get_elem? buf pos
  b1 ← get_elem? buf (pos + 1)
  b2 ← get_elem? buf (pos + 2)
  b3 ← get_elem? buf (pos + 3)
  some (b0 + b1 * 2 ^ 8 + b2 * 2 ^ 16 + b3 * 2 ^ 24)

-- `pc + (int)val`; `none` is a jump to before the bytecode.
unfoldable pub jump : ℕ → ℕ → Option ℕ
jump pc val =
    if ltb val (2 ^ 31)
    then some (pc + val)
    else if ltb (pc + val) (2 ^ 32)
    then none
    else some (pc + val - 2 ^ 32)
