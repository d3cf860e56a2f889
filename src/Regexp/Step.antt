-- ===== src/Regexp/Step.antt =====
-- One instruction of `lre_exec_backtrack`. `pc` is behind the opcode; `none` is undefined
-- behaviour: an access out of bounds, a failed assertion or `abort`.
use quickjs_rs.Base.{ℕ, zero, suc, ◌+◌, ◌-◌, ◌*◌, ◌^◌, ltb, leb, ◌==◌, if◌then◌else◌, not, xor}
use quickjs_rs.Base.{Option, none, some, List, length, set, get_elem?, Bool, true, false, size_t}
use quickjs_rs.Base.Partial.{◌>>=◌, ◌>>◌, check}
use quickjs_rs.Regexp.Opcode.{Opcode, decode, get_u8, get_u16, get_u32, jump}
use quickjs_rs.Regexp.Chars.{
  get_char, peek_char, get_prev_char, peek_prev_char, prev_char, is_line_terminator, is_word_char,
}
use quickjs_rs.Regexp.State.{
  Context, StateType, Regs, Step, next, accept, reject, error, quantify, push_state, address,
}
use quickjs_rs.Regexp.State.{split, lookahead, negative_lookahead}
use quickjs_rs.Regexp.Search.{match_range, match_range32}

-- `while (val <= val2)`, with the rounds that are left.
unfoldable pub reset_captures : ℕ → ℕ → List (Option ℕ) → List (Option ℕ)
reset_captures zero val capture = capture
reset_captures (suc left) val capture =
    reset_captures left (val + 1) (set (set capture (2 * val) none) (2 * val + 1) none)

module _ (ctx : Context) where
  unfoldable pub cbuf_end : ℕ
  cbuf_end = length ctx.cbuf

  unfoldable pub canon : ℕ → ℕ
  canon c = if ctx.ignore_case then ctx.canonicalize c else c

  -- A character is read and tested, or there is none.
  unfoldable pub with_char : Regs → (ℕ → Option Bool) → ℕ → Option Step
  unfolding cbuf_end
  with_char r test pc = elim (leb cbuf_end r.cptr) [
    | true ↦ some (reject r.machine)
    | false ↦ do
      (c, cptr) ← get_char ctx.cbuf_type ctx.cbuf cbuf_end r.cptr
      ok ← test c
      some (if ok then next (record r { pc = pc; cptr = cptr }) else reject r.machine)
  ]

  -- `test_char`
  unfoldable pub test_char : Regs → ℕ → ℕ → Option Step
  unfolding canon with_char
  test_char r val pc = with_char r (λ c. some (val == canon c)) pc

  -- A state is saved, and the execution goes on at `pc`.
  unfoldable pub save_state : Regs → ℕ → StateType → ℕ → Option Step
  save_state r saved_pc type pc =
      some (elim (push_state ctx r.machine r.stack_len saved_pc r.cptr type 0) [
        | none ↦ error r.machine
        | some m ↦ next (record r { machine = m; pc = pc })
      ])

  unfoldable pub do_split : Bool → Regs → Option Step
  unfolding save_state
  do_split next_first r = do
    val ← get_u32 ctx.bc r.pc
    target ← jump (r.pc + 4) val
    if next_first
        then save_state r target split (r.pc + 4)
        else save_state r (r.pc + 4) split target

  unfoldable pub do_lookahead : StateType → Regs → Option Step
  unfolding save_state
  do_lookahead type r = do
    val ← get_u32 ctx.bc r.pc
    target ← jump (r.pc + 4) val
    save_state r target type (r.pc + 4)

  unfoldable pub do_goto : Regs → Option Step
  do_goto r = do
    val ← get_u32 ctx.bc r.pc
    pc ← jump (r.pc + 4) val
    some (next (record r { pc = pc }))

  -- The test of a line's start or end, once the subject's own was not met.
  unfoldable pub at_line : Regs → Option ℕ → Option Step
  at_line r char = elim ctx.multi_line [
    | false ↦ some (reject r.machine)
    | true ↦ do c ← char; some (if is_line_terminator c then next r else reject r.machine)
  ]

  unfoldable pub do_line_start : Regs → Option Step
  unfolding at_line
  do_line_start r = elim (r.cptr == 0) [
    | true ↦ some (next r)
    | false ↦ at_line r (peek_prev_char ctx.cbuf_type ctx.cbuf 0 r.cptr)
  ]

  unfoldable pub do_line_end : Regs → Option Step
  unfolding at_line cbuf_end
  do_line_end r = elim (r.cptr == cbuf_end) [
    | true ↦ some (next r)
    | false ↦ at_line r (peek_char ctx.cbuf_type ctx.cbuf cbuf_end r.cptr)
  ]

  -- `REOP_dot` and `REOP_any`: they compare `cptr == cbuf_end`.
  unfoldable pub do_any : (ℕ → Bool) → Regs → Option Step
  unfolding cbuf_end
  do_any ok r = elim (r.cptr == cbuf_end) [
    | true ↦ some (reject r.machine)
    | false ↦ do
      (c, cptr) ← get_char ctx.cbuf_type ctx.cbuf cbuf_end r.cptr
      some (if ok c then next (record r { cptr = cptr }) else reject r.machine)
  ]

  -- `side` is 0 for the start and 1 for the end.
  unfoldable pub do_save : ℕ → Regs → Option Step
  do_save side r = do
    val ← get_u8 ctx.bc r.pc
    check (ltb val ctx.capture_count)
    let m = r.machine
    some (
        next (record r {
          machine = record m { capture = set m.capture (2 * val + side) (some r.cptr) };
          pc = r.pc + 1;
        }))

  unfoldable pub do_save_reset : Regs → Option Step
  do_save_reset r = do
    val ← get_u8 ctx.bc r.pc
    val2 ← get_u8 ctx.bc (r.pc + 1)
    check (ltb val2 ctx.capture_count)
    let m = r.machine
    some (
        next (record r {
          machine = record m { capture = reset_captures (val2 + 1 - val) val m.capture };
          pc = r.pc + 2;
        }))

  -- `stack[stack_len++] = val`
  unfoldable pub push : ℕ → ℕ → Regs → Option Step
  push val pc r = do
    let m = r.machine
    check (ltb r.stack_len (length m.stack))
    some (
        next (record r {
          machine = record m { stack = set m.stack r.stack_len val };
          pc = pc;
          stack_len = r.stack_len + 1;
        }))

  unfoldable pub do_push_i32 : Regs → Option Step
  unfolding push
  do_push_i32 r = do val ← get_u32 ctx.bc r.pc; push val (r.pc + 4) r

  unfoldable pub do_drop : Regs → Option Step
  do_drop r = do check (ltb 0 r.stack_len); some (next (record r { stack_len = r.stack_len - 1 }))

  -- `pc += (int)val`, where the branch is taken.
  unfoldable pub branch : Bool → ℕ → Regs → Option Step
  branch false val r = some (next r)
  branch true val r = do target ← jump r.pc val; some (next (record r { pc = target }))

  -- `--stack[stack_len - 1]` on a `uintptr_t`.
  unfoldable pub do_loop : Regs → Option Step
  unfolding branch
  do_loop r = do
    val ← get_u32 ctx.bc r.pc
    check (ltb 0 r.stack_len)
    let m = r.machine
    top ← get_elem? m.stack (r.stack_len - 1)
    let left = size_t (top + 2 ^ 64 - 1)
    branch (not (left == 0)) val (record r {
      machine = record m { stack = set m.stack (r.stack_len - 1) left };
      pc = r.pc + 4;
    })

  unfoldable pub do_bne_char_pos : Regs → Option Step
  unfolding branch
  do_bne_char_pos r = do
    val ← get_u32 ctx.bc r.pc
    check (ltb 0 r.stack_len)
    let m = r.machine
    top ← get_elem? m.stack (r.stack_len - 1)
    branch (not (top == address ctx r.cptr)) val
        (record r { pc = r.pc + 4; stack_len = r.stack_len - 1 })

  -- Whether a word character stands before `cptr`, and at it.
  unfoldable pub word_before : Regs → Option Bool
  word_before r = elim (r.cptr == 0) [
    | true ↦ some false
    | false ↦ peek_prev_char ctx.cbuf_type ctx.cbuf 0 r.cptr >>= λ c. some (is_word_char c)
  ]

  unfoldable pub word_at : Regs → Option Bool
  unfolding cbuf_end
  word_at r = elim (leb cbuf_end r.cptr) [
    | true ↦ some false
    | false ↦ peek_char ctx.cbuf_type ctx.cbuf cbuf_end r.cptr >>= λ c. some (is_word_char c)
  ]

  -- `v1 ^ v2 ^ (REOP_not_word_boundary - opcode)`
  unfoldable pub do_word_boundary : Bool → Regs → Option Step
  unfolding word_before word_at
  do_word_boundary negated r = do
    v1 ← word_before r
    v2 ← word_at r
    some (if xor (xor v1 v2) (not negated) then reject r.machine else next r)

  -- The loops of a back reference: `none` is undefined behaviour, `some none` no match, and
  -- else the index behind the text that was compared. Each round moves `cptr1`.
  unfoldable pub compare_forward : ℕ → ℕ → ℕ → ℕ → Option (Option ℕ)
  unfolding cbuf_end canon
  compare_forward zero cptr1 cptr1_end cptr = some (some cptr)
  compare_forward (suc fuel) cptr1 cptr1_end cptr = elim (ltb cptr1 cptr1_end) [
    | false ↦ some (some cptr)
    | true ↦ elim (leb cbuf_end cptr) [
      | true ↦ some none
      | false ↦ do
        (c1, cptr1') ← get_char ctx.cbuf_type ctx.cbuf cptr1_end cptr1
        (c2, cptr') ← get_char ctx.cbuf_type ctx.cbuf cbuf_end cptr
        elim (canon c1 == canon c2) [
          | true ↦ compare_forward fuel cptr1' cptr1_end cptr'
          | false ↦ some none
        ]
    ]
  ]

  unfoldable pub compare_backward : ℕ → ℕ → ℕ → ℕ → Option (Option ℕ)
  unfolding canon
  compare_backward zero cptr1 cptr1_start cptr = some (some cptr)
  compare_backward (suc fuel) cptr1 cptr1_start cptr = elim (ltb cptr1_start cptr1) [
    | false ↦ some (some cptr)
    | true ↦ elim (cptr == 0) [
      | true ↦ some none
      | false ↦ do
        (c1, cptr1') ← get_prev_char ctx.cbuf_type ctx.cbuf cptr1_start cptr1
        (c2, cptr') ← get_prev_char ctx.cbuf_type ctx.cbuf 0 cptr
        elim (canon c1 == canon c2) [
          | true ↦ compare_backward fuel cptr1' cptr1_start cptr'
          | false ↦ some none
        ]
    ]
  ]

  -- The comparison of a group that has both ends, each an index or NULL.
  unfoldable pub compare_group : Bool → Option ℕ → Option ℕ → ℕ → Option (Option ℕ)
  compare_group backward (some start) (some end) cptr = elim backward [
    | true ↦ compare_backward (end - start) end start cptr
    | false ↦ compare_forward (end - start) start end cptr
  ]
  compare_group backward _ _ cptr = some (some cptr)

  unfoldable pub do_back_reference : Bool → Regs → Option Step
  unfolding compare_group
  do_back_reference backward r = do
    val ← get_u8 ctx.bc r.pc
    let m = r.machine
    elim (leb ctx.capture_count val) [
      | true ↦ some (reject m)
      | false ↦ do
        start ← get_elem? m.capture (2 * val)
        end ← get_elem? m.capture (2 * val + 1)
        found ← compare_group backward start end r.cptr
        some (elim found [
          | none ↦ reject m
          | some cptr ↦ next (record r { pc = r.pc + 1; cptr = cptr })
        ])
    ]

  unfoldable pub do_range : Regs → Option Step
  unfolding canon with_char
  do_range r = do
    n ← get_u16 ctx.bc r.pc
    with_char r (λ c. match_range ctx.bc (r.pc + 2) n (canon c)) (r.pc + 2 + 4 * n)

  unfoldable pub do_range32 : Regs → Option Step
  unfolding canon with_char
  do_range32 r = do
    n ← get_u16 ctx.bc r.pc
    with_char r (λ c. match_range32 ctx.bc (r.pc + 2) n (canon c)) (r.pc + 2 + 8 * n)

  unfoldable pub do_prev : Regs → Option Step
  do_prev r = elim (r.cptr == 0) [
    | true ↦ some (reject r.machine)
    | false ↦
        prev_char ctx.cbuf_type ctx.cbuf 0 r.cptr >>= λ cptr. some (next (record r { cptr = cptr }))
  ]

  unfoldable pub do_quantifier : Regs → Option Step
  do_quantifier r = do
    next_pos ← get_u32 ctx.bc r.pc
    quant_min ← get_u32 ctx.bc (r.pc + 4)
    quant_max ← get_u32 ctx.bc (r.pc + 8)
    pc ← jump (r.pc + 16) next_pos
    some (
        quantify (record {
          regs = record r { pc = pc };
          body = r.pc + 16;
          quant_min = quant_min;
          quant_max = quant_max;
        }))

  -- The `switch`, with `pc` behind the opcode.
  unfoldable pub dispatch : Opcode → Regs → Option Step
  unfolding do_split do_lookahead do_goto do_line_start do_line_end do_any do_save do_save_reset
      do_push_i32 push do_drop do_loop do_bne_char_pos do_word_boundary do_back_reference do_range
      do_range32 do_prev do_quantifier test_char
  dispatch Opcode.matched r = some (accept r)
  dispatch Opcode.char32 r = get_u32 ctx.bc r.pc >>= λ val. test_char r val (r.pc + 4)
  dispatch Opcode.char r = get_u16 ctx.bc r.pc >>= λ val. test_char r val (r.pc + 2)
  dispatch Opcode.split_goto_first r = do_split false r
  dispatch Opcode.split_next_first r = do_split true r
  dispatch Opcode.lookahead r = do_lookahead lookahead r
  dispatch Opcode.negative_lookahead r = do_lookahead negative_lookahead r
  dispatch Opcode.goto r = do_goto r
  dispatch Opcode.line_start r = do_line_start r
  dispatch Opcode.line_end r = do_line_end r
  dispatch Opcode.dot r = do_any (λ c. not (is_line_terminator c)) r
  dispatch Opcode.any r = do_any (λ c. true) r
  dispatch Opcode.save_start r = do_save 0 r
  dispatch Opcode.save_end r = do_save 1 r
  dispatch Opcode.save_reset r = do_save_reset r
  dispatch Opcode.push_i32 r = do_push_i32 r
  dispatch Opcode.drop r = do_drop r
  dispatch Opcode.loop r = do_loop r
  dispatch Opcode.push_char_pos r = push (address ctx r.cptr) r.pc r
  dispatch Opcode.bne_char_pos r = do_bne_char_pos r
  dispatch Opcode.word_boundary r = do_word_boundary false r
  dispatch Opcode.not_word_boundary r = do_word_boundary true r
  dispatch Opcode.back_reference r = do_back_reference false r
  dispatch Opcode.backward_back_reference r = do_back_reference true r
  dispatch Opcode.range r = do_range r
  dispatch Opcode.range32 r = do_range32 r
  dispatch Opcode.prev r = do_prev r
  dispatch Opcode.simple_greedy_quant r = do_quantifier r
  dispatch Opcode.invalid r = none

  unfoldable pub step : Regs → Option Step
  unfolding dispatch
  step r = do
    byte ← get_u8 ctx.bc r.pc
    opcode ← decode byte
    dispatch opcode (record r { pc = r.pc + 1 })
