-- ===== src/Regexp/State.antt =====
-- The state of an execution: `REExecContext`, `REExecState`, and the locals of
-- `lre_exec_backtrack`.
use quickjs_rs.Base.{ℕ, ◌+◌, ◌*◌, ◌/◌, ltb, size_t, ◌==◌, if◌then◌else◌, Option, none, some}
use quickjs_rs.Base.{List, ◌∷◌, length, take, Bool}

-- What does not change during an execution. `cbuf_addr` is the address of the subject, `canonicalize` is `lre_canonicalize` at `is_utf16`, and
-- `alloc` says whether `lre_realloc` finds a block for so many states; a run asks once for each
-- number.
pub record Context : Type 0 where
  pub bc : List ℕ
  pub cbuf : List ℕ
  pub cbuf_addr : ℕ
  pub cbuf_type : ℕ
  pub capture_count : ℕ
  pub multi_line : Bool
  pub ignore_case : Bool
  pub canonicalize : ℕ → ℕ
  pub alloc : ℕ → Bool

-- `REExecStateEnum`
pub data StateType : Type 0 where
  split lookahead negative_lookahead greedy_quant : StateType

-- A saved state: the captures and the first `stack_len` stack entries are its `buf`.
pub record ExecState : Type 0 where
  pub type : StateType
  pub count : ℕ
  pub cptr : ℕ
  pub pc : ℕ
  pub capture : List (Option ℕ)
  pub stack : List ℕ

-- What the calls share: the captures (`none` is NULL), the stack of `stack_size_max` entries, the
-- saved states with the last first, and the room for states.
pub record Machine : Type 0 where
  pub capture : List (Option ℕ)
  pub stack : List ℕ
  pub states : List ExecState
  pub state_stack_size : ℕ

-- The locals of a call.
pub record Regs : Type 0 where
  pub machine : Machine
  pub pc : ℕ
  pub cptr : ℕ
  pub stack_len : ℕ

-- The result of an instruction. `reject` is `goto no_match`, `error` the return of -1.
pub record Quantifier : Type 0 where
  pub regs : Regs
  pub body : ℕ
  pub quant_min : ℕ
  pub quant_max : ℕ

pub data Step : Type 0 where
  next : Regs → Step
  accept : Regs → Step
  reject : Machine → Step
  error : Machine → Step
  quantify : Quantifier → Step

module _ (ctx : Context) where
  -- `(uintptr_t)cptr`, where `cptr` is the pointer to a code unit by its index.
  unfoldable pub address : ℕ → ℕ
  address cptr = size_t (ctx.cbuf_addr + cptr * (if ctx.cbuf_type == 0 then 1 else 2))

  -- `push_state`; `none` is the return of -1.
  unfoldable pub push_state : Machine → ℕ → ℕ → ℕ → StateType → ℕ → Option Machine
  push_state m stack_len pc cptr type count =
      let grown = m.state_stack_size * 3 / 2 in
      let new_size = if ltb grown 8 then 8 else grown in
      let saved : ExecState = record {
        type = type;
        count = count;
        cptr = cptr;
        pc = pc;
        capture = m.capture;
        stack = take stack_len m.stack;
      } in
      if ltb m.state_stack_size (length m.states + 1)
      then (if ctx.alloc new_size
          then some (record m { states = saved ∷ m.states; state_stack_size = new_size })
          else none)
      else some (record m { states = saved ∷ m.states })
