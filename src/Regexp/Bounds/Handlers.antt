-- ===== src/Regexp/Bounds/Handlers.antt =====
-- What each instruction asks of its operands, and where those that do not read the subject are
-- defined.
use quickjs_rs.Base.{
  ℕ, ◌+◌, ◌-◌, ◌*◌, ◌^◌, ◌≤◌, ◌<◌, ◌==◌, ◌≡◌, arith, Option, none, some, Bool, true, false, length,
  get_elem?, ltb, if_cases, sym,
}
use quickjs_rs.Base.Partial.{◌>>=◌, check}
use quickjs_rs.Regexp.Opcode.{Opcode, get_u8, get_u16, get_u32, jump}
use quickjs_rs.Regexp.State.{Context, StateType, Regs, Step}
use quickjs_rs.Regexp.Step.{
  canon, test_char, do_save, do_save_reset, push, do_push_i32, do_drop, branch, do_loop,
  do_bne_char_pos, do_range, do_range32, do_quantifier, do_goto, do_split, do_lookahead, save_state,
}
use quickjs_rs.Regexp.Bounds.Defined.{
  IsDefined, IsDefined-bind, get_elem?-IsDefined, check-IsDefined, get_u8-IsDefined,
  get_u16-IsDefined, get_u32-IsDefined, match_range-IsDefined, match_range32-IsDefined,
}
use quickjs_rs.Regexp.Bounds.Taking.{with_char-IsDefined}

-- The bytes of a class of `n` intervals stand in the bytecode.
pub class_fits :
    (pos n width size : ℕ) (o : Option ℕ)
    → o ≡ some n
    → (o >>= λ val. some (3 + val * width)) ≡ some size
    → 3 + n * width ≡ size
class_fits pos n width size none e l = absurd (let no : ⊥ = cc in no)
class_fits pos n width size (some m) e l =
    let same : m ≡ n = cc in rw (sym same) (let value : 3 + m * width ≡ size = cc in value)

module _ (ctx : Context) where
  abbrev len : ℕ
  len = length ctx.cbuf

  -- The offset at `pos` leads from `after` into the bytecode or behind it.
  abbrev pub Jumps : ℕ → ℕ → Type 0
  Jumps pos after = (val : ℕ) → get_u32 ctx.bc pos ≡ some val → IsDefined (jump after val)

  -- What an instruction asks of its operands, its captures and its stack, with `pc` behind the
  -- opcode: the asserted bounds of captures, jumps that do not lead to before the bytecode, a
  -- class that is not empty, room on the stack or an entry there.
  abbrev pub Operands : Opcode → Regs → Type 0
  Operands Opcode.invalid r = ⊥
  Operands Opcode.goto r = Jumps r.pc (r.pc + 4)
  Operands Opcode.split_goto_first r = Jumps r.pc (r.pc + 4)
  Operands Opcode.split_next_first r = Jumps r.pc (r.pc + 4)
  Operands Opcode.lookahead r = Jumps r.pc (r.pc + 4)
  Operands Opcode.negative_lookahead r = Jumps r.pc (r.pc + 4)
  Operands Opcode.save_start r = (val : ℕ) → get_u8 ctx.bc r.pc ≡ some val → val < ctx.capture_count
  Operands Opcode.save_end r = (val : ℕ) → get_u8 ctx.bc r.pc ≡ some val → val < ctx.capture_count
  Operands Opcode.save_reset r =
      (val2 : ℕ) → get_u8 ctx.bc (r.pc + 1) ≡ some val2 → val2 < ctx.capture_count
  Operands Opcode.push_i32 r = r.stack_len < length r.machine.stack
  Operands Opcode.push_char_pos r = r.stack_len < length r.machine.stack
  Operands Opcode.drop r = 0 < r.stack_len
  Operands Opcode.loop r =
      (0 < r.stack_len) × (r.stack_len ≤ length r.machine.stack) × Jumps r.pc (r.pc + 4)
  Operands Opcode.bne_char_pos r =
      (0 < r.stack_len) × (r.stack_len ≤ length r.machine.stack) × Jumps r.pc (r.pc + 4)
  Operands Opcode.back_reference r = length r.machine.capture ≡ 2 * ctx.capture_count
  Operands Opcode.backward_back_reference r = length r.machine.capture ≡ 2 * ctx.capture_count
  Operands Opcode.range r = (n : ℕ) → get_u16 ctx.bc r.pc ≡ some n → 0 < n
  Operands Opcode.range32 r = (n : ℕ) → get_u16 ctx.bc r.pc ≡ some n → 0 < n
  Operands Opcode.simple_greedy_quant r = Jumps r.pc (r.pc + 16)
  Operands op r = Unit

  pub test_char-IsDefined : (r : Regs) (val pc : ℕ) → IsDefined (test_char ctx r val pc)
  unfolding test_char
  test_char-IsDefined r val pc =
      with_char-IsDefined ctx r (λ c. some (val == canon ctx c)) pc λ c. tt

  jumped :
      (r : Regs) (val_at : ℕ) (f : ℕ → ℕ → Option Step) (after : ℕ)
      → val_at + 3 < length ctx.bc
      → Jumps val_at after
      → ((val target : ℕ) → IsDefined (f val target))
      → IsDefined (get_u32 ctx.bc val_at >>= λ val. jump after val >>= f val)
  jumped r val_at f after fits j k =
      IsDefined-bind (get_u32 ctx.bc val_at) _ (get_u32-IsDefined ctx.bc val_at fits)
        λ val e. IsDefined-bind (jump after val) _ (j val e) λ target e'. k val target

  pub do_split-IsDefined :
      (first : Bool) (r : Regs)
      → r.pc + 3 < length ctx.bc
      → Jumps r.pc (r.pc + 4)
      → IsDefined (do_split ctx first r)
  unfolding do_split save_state
  do_split-IsDefined first r fits j =
      jumped r r.pc _ (r.pc + 4) fits j
        λ val target. if_cases IsDefined first (λ yes. tt) (λ no. tt)

  pub do_lookahead-IsDefined :
      (type : StateType) (r : Regs)
      → r.pc + 3 < length ctx.bc
      → Jumps r.pc (r.pc + 4)
      → IsDefined (do_lookahead ctx type r)
  unfolding do_lookahead save_state
  do_lookahead-IsDefined type r fits j = jumped r r.pc _ (r.pc + 4) fits j λ val target. tt

  pub do_goto-IsDefined :
      (r : Regs) → r.pc + 3 < length ctx.bc → Jumps r.pc (r.pc + 4) → IsDefined (do_goto ctx r)
  unfolding do_goto
  do_goto-IsDefined r fits j = jumped r r.pc _ (r.pc + 4) fits j λ val target. tt

  pub do_save-IsDefined :
      (side : ℕ) (r : Regs)
      → r.pc < length ctx.bc
      → ((val : ℕ) → get_u8 ctx.bc r.pc ≡ some val → val < ctx.capture_count)
      → IsDefined (do_save ctx side r)
  unfolding do_save
  do_save-IsDefined side r fits o =
      IsDefined-bind (get_u8 ctx.bc r.pc) _ (get_u8-IsDefined ctx.bc r.pc fits) λ val e.
        IsDefined-bind (check (ltb val ctx.capture_count)) _
          (check-IsDefined val ctx.capture_count (o val e)) λ u e'. tt

  pub do_save_reset-IsDefined :
      (r : Regs)
      → r.pc + 1 < length ctx.bc
      → ((val2 : ℕ) → get_u8 ctx.bc (r.pc + 1) ≡ some val2 → val2 < ctx.capture_count)
      → IsDefined (do_save_reset ctx r)
  unfolding do_save_reset
  do_save_reset-IsDefined r fits o =
      IsDefined-bind (get_u8 ctx.bc r.pc) _ (get_u8-IsDefined ctx.bc r.pc (omega arith)) λ val e.
        IsDefined-bind (get_u8 ctx.bc (r.pc + 1)) _ (get_u8-IsDefined ctx.bc (r.pc + 1) fits)
          λ val2 e2.
            IsDefined-bind (check (ltb val2 ctx.capture_count)) _
              (check-IsDefined val2 ctx.capture_count (o val2 e2)) λ u e'. tt

  pub push-IsDefined :
      (val pc : ℕ) (r : Regs) → r.stack_len < length r.machine.stack → IsDefined (push ctx val pc r)
  unfolding push
  push-IsDefined val pc r room =
      IsDefined-bind (check (ltb r.stack_len (length r.machine.stack))) _
        (check-IsDefined r.stack_len (length r.machine.stack) room) λ u e. tt

  pub do_push_i32-IsDefined :
      (r : Regs)
      → r.pc + 3 < length ctx.bc
      → r.stack_len < length r.machine.stack
      → IsDefined (do_push_i32 ctx r)
  unfolding do_push_i32
  do_push_i32-IsDefined r fits room =
      IsDefined-bind (get_u32 ctx.bc r.pc) _ (get_u32-IsDefined ctx.bc r.pc fits)
        λ val e. push-IsDefined val (r.pc + 4) r room

  pub do_drop-IsDefined : (r : Regs) → 0 < r.stack_len → IsDefined (do_drop ctx r)
  unfolding do_drop
  do_drop-IsDefined r h =
      IsDefined-bind (check (ltb 0 r.stack_len)) _ (check-IsDefined 0 r.stack_len h) λ u e. tt

  pub branch-IsDefined :
      (taken : Bool) (val : ℕ) (r : Regs)
      → IsDefined (jump r.pc val)
      → IsDefined (branch ctx taken val r)
  unfolding branch
  branch-IsDefined false val r j = tt
  branch-IsDefined true val r j = IsDefined-bind (jump r.pc val) _ j λ target e. tt

  module _ (r : Regs) (fits : r.pc + 3 < length ctx.bc) (entry : 0 < r.stack_len)
      (inside : r.stack_len ≤ length r.machine.stack) (j : Jumps r.pc (r.pc + 4)) where
    pub do_loop-IsDefined : IsDefined (do_loop ctx r)
    unfolding do_loop
    do_loop-IsDefined =
        IsDefined-bind (get_u32 ctx.bc r.pc) _ (get_u32-IsDefined ctx.bc r.pc fits) λ val e.
          IsDefined-bind (check (ltb 0 r.stack_len)) _ (check-IsDefined 0 r.stack_len entry) λ u e1.
            IsDefined-bind (get_elem? r.machine.stack (r.stack_len - 1)) _
              (get_elem?-IsDefined r.machine.stack (r.stack_len - 1) (omega arith))
              λ top e2. branch-IsDefined _ val _ (j val e)

    pub do_bne_char_pos-IsDefined : IsDefined (do_bne_char_pos ctx r)
    unfolding do_bne_char_pos
    do_bne_char_pos-IsDefined =
        IsDefined-bind (get_u32 ctx.bc r.pc) _ (get_u32-IsDefined ctx.bc r.pc fits) λ val e.
          IsDefined-bind (check (ltb 0 r.stack_len)) _ (check-IsDefined 0 r.stack_len entry) λ u e1.
            IsDefined-bind (get_elem? r.machine.stack (r.stack_len - 1)) _
              (get_elem?-IsDefined r.machine.stack (r.stack_len - 1) (omega arith))
              λ top e2. branch-IsDefined _ val _ (j val e)

  pub do_quantifier-IsDefined :
      (r : Regs)
      → r.pc + 15 < length ctx.bc
      → Jumps r.pc (r.pc + 16)
      → IsDefined (do_quantifier ctx r)
  unfolding do_quantifier
  do_quantifier-IsDefined r fits j =
      IsDefined-bind (get_u32 ctx.bc r.pc) _ (get_u32-IsDefined ctx.bc r.pc (omega arith)) λ pos e0.
        IsDefined-bind (get_u32 ctx.bc (r.pc + 4)) _ (get_u32-IsDefined ctx.bc _ (omega arith))
          λ least e1.
            IsDefined-bind (get_u32 ctx.bc (r.pc + 8)) _ (get_u32-IsDefined ctx.bc _ (omega arith))
              λ most e2. IsDefined-bind (jump (r.pc + 16) pos) _ (j pos e0) λ pc e3. tt

  class_ge :
      (width size : ℕ) (o : Option ℕ) → (o >>= λ val. some (3 + val * width)) ≡ some size → 3 ≤ size
  class_ge width size none l = absurd (let no : ⊥ = cc in no)
  class_ge width size (some m) l = let value : 3 + m * width ≡ size = cc in omega arith

  module _ (r : Regs) (pos size : ℕ) (behind : r.pc ≡ pos + 1) (fits : pos + size ≤ length ctx.bc)
      (short : length ctx.bc < 2 ^ 31) (o : (n : ℕ) → get_u16 ctx.bc r.pc ≡ some n → 0 < n) where
    pub do_range-IsDefined :
        (get_u16 ctx.bc (pos + 1) >>= λ val. some (3 + val * 4)) ≡ some size
        → IsDefined (do_range ctx r)
    unfolding do_range
    do_range-IsDefined l =
        let three : 3 ≤ size = class_ge 4 size (get_u16 ctx.bc (pos + 1)) l in
        IsDefined-bind (get_u16 ctx.bc r.pc) _ (get_u16-IsDefined ctx.bc r.pc (omega arith)) λ n e.
          let bytes : 3 + n * 4 ≡ size =
            class_fits pos n 4 size (get_u16 ctx.bc (pos + 1)) (rw (sym behind) e) l in
          with_char-IsDefined ctx r _ _ λ c.
            match_range-IsDefined ctx.bc (r.pc + 2) n (canon ctx c) (o n e) (omega arith)
              (omega arith)

    pub do_range32-IsDefined :
        (get_u16 ctx.bc (pos + 1) >>= λ val. some (3 + val * 8)) ≡ some size
        → IsDefined (do_range32 ctx r)
    unfolding do_range32
    do_range32-IsDefined l =
        let three : 3 ≤ size = class_ge 8 size (get_u16 ctx.bc (pos + 1)) l in
        IsDefined-bind (get_u16 ctx.bc r.pc) _ (get_u16-IsDefined ctx.bc r.pc (omega arith)) λ n e.
          let bytes : 3 + n * 8 ≡ size =
            class_fits pos n 8 size (get_u16 ctx.bc (pos + 1)) (rw (sym behind) e) l in
          with_char-IsDefined ctx r _ _ λ c.
            match_range32-IsDefined ctx.bc (r.pc + 2) n (canon ctx c) (o n e) (omega arith)
              (omega arith)
