-- ===== src/Regexp/Exec.antt =====
-- `lre_exec_backtrack` and `lre_exec`: the loop over instructions, the unwinding of saved states,
-- and the greedy quantifier, which calls the function for its body.
use quickjs_rs.Base.{ℕ, zero, suc, ◌+◌, ◌-◌, ◌*◌, ◌^◌, ltb, leb, ◌==◌, if◌then◌else◌, not, size_t}
use quickjs_rs.Base.{
  Option, none, some, List, [], ◌∷◌, ◌++◌, length, drop, Bool, true, false, ◌&&◌, replicate,
  bit_and,
}
use quickjs_rs.Base.Partial.{◌>>=◌}
use quickjs_rs.Regexp.Opcode.{get_u8, get_u32, jump}
use quickjs_rs.Regexp.Chars.{prev_char}
use quickjs_rs.Regexp.State.{
  Context, ExecState, Machine, Regs, Quantifier, next, accept, reject, error, quantify, push_state,
}
use quickjs_rs.Regexp.State.{split, lookahead, negative_lookahead, greedy_quant}
use quickjs_rs.Regexp.Step.{step}

-- What the loop at `recurse` comes to: a return of `ret`, or an execution that goes on.
pub data Unwound : Type 0 where
  returned : Bool → Machine → Unwound
  resumed : Regs → Unwound

-- `for(i = 0; i < char_count; i++) PREV_CHAR(cptr, s->cbuf)`
unfoldable pub go_backward : Context → ℕ → ℕ → Option ℕ
go_backward ctx zero cptr = some cptr
go_backward ctx (suc left) cptr = prev_char ctx.cbuf_type ctx.cbuf 0 cptr >>= go_backward ctx left

-- `memcpy(stack, rs->buf + 2 * s->capture_count, …)`
unfoldable pub restored : List ℕ → List ℕ → List ℕ
restored saved stack = saved ++ drop (length saved) stack

module _ (ctx : Context) where
  -- `pop_state` and `pop_state1`: the state at the top is taken up again, and popped.
  unfoldable pub pop_state : List (Option ℕ) → ExecState → List ExecState → Machine → Unwound
  unfolding restored
  pop_state capture rs states m = resumed (record {
    machine = record m { capture = capture; stack = restored rs.stack m.stack; states = states };
    pc = rs.pc;
    cptr = rs.cptr;
    stack_len = length rs.stack;
  })

  -- One match of the quantifier less: its state stays while matches are left.
  unfoldable pub pop_greedy : ExecState → List ExecState → Machine → Option Unwound
  unfolding restored
  pop_greedy rs states m = do
    char_count ← get_u32 ctx.bc (rs.pc + 12)
    cptr ← go_backward ctx char_count rs.cptr
    next_pos ← get_u32 ctx.bc rs.pc
    pc ← jump (rs.pc + 16) next_pos
    let count = size_t (rs.count + 2 ^ 64 - 1)
    some (
        resumed (record {
          machine = record m {
            capture = rs.capture;
            stack = restored rs.stack m.stack;
            states =
                if count == 0 then states else record rs { cptr = cptr; count = count } ∷ states;
          };
          pc = pc;
          cptr = cptr;
          stack_len = length rs.stack;
        }))

  -- The loop at `recurse`, over the saved states from the last on.
  unfoldable pub unwind : Bool → List ExecState → Machine → Option Unwound
  unfolding pop_state pop_greedy
  unwind ret [] m = some (returned ret (record m { states = [] }))
  unwind ret (rs ∷ states) m = elim rs.type [
    | split ↦ elim ret [
      | true ↦ unwind true states m
      | false ↦ some (pop_state rs.capture rs states m)
    ]
    | greedy_quant ↦ elim ret [ true ↦ unwind true states m | false ↦ pop_greedy rs states m ]
    | lookahead ↦ elim ret [
      | true ↦ some (pop_state m.capture rs states m)
      | false ↦ unwind false states m
    ]
    | negative_lookahead ↦ elim ret [
      | true ↦ unwind false states m
      | false ↦ some (pop_state rs.capture rs states m)
    ]
  ]

-- The return of a call. `hit` carries the pointer that a call with `no_recurse` returns, and 1
-- otherwise; `failed` is -1; `fault` is undefined behaviour; `out_of_fuel` is no return.
pub data Result : Type 0 where
  hit : ℕ → Machine → Result
  miss : Machine → Result
  failed : Machine → Result
  fault out_of_fuel : Result

-- The loop of the quantifier: the matches counted, the index behind them and the machine, or a
-- return.
pub data Counted : Type 0 where
  counted : ℕ → ℕ → Machine → Counted
  stopped : Result → Counted

-- INT32_MAX
abbrev pub int32_max : ℕ
int32_max = 2 ^ 31 - 1

unfoldable mutual
  -- The calls of `lre_exec_backtrack`, one instruction for each unit of fuel.
  pub run : ℕ → Context → Bool → Regs → Result
  run zero ctx no_recurse r = out_of_fuel
  run (suc fuel) ctx no_recurse r = elim (step ctx r) [
    | none ↦ fault
    | some (next r') ↦ run fuel ctx no_recurse r'
    | some (accept r') ↦ elim no_recurse [
      | true ↦ hit r'.cptr r'.machine
      | false ↦ recurse fuel ctx true r'.machine
    ]
    | some (reject m) ↦ elim no_recurse [ true ↦ miss m | false ↦ recurse fuel ctx false m ]
    | some (error m) ↦ failed m
    | some (quantify q) ↦ elim (count_matches fuel ctx q q.regs.machine q.regs.cptr 0) [
      | stopped res ↦ res
      | counted n cptr m ↦ quantified fuel ctx no_recurse q n cptr m
    ]
  ]

  -- From `recurse` on, which a call with `no_recurse` does not reach.
  pub recurse : ℕ → Context → Bool → Machine → Result
  recurse zero ctx ret m = out_of_fuel
  recurse (suc fuel) ctx ret m = elim (unwind ctx ret m.states m) [
    | none ↦ fault
    | some (returned true m') ↦ hit 1 m'
    | some (returned false m') ↦ miss m'
    | some (resumed r) ↦ run fuel ctx false r
  ]

  -- `q` matches of the body so far.
  pub count_matches : ℕ → Context → Quantifier → Machine → ℕ → ℕ → Counted
  count_matches zero ctx q m cptr n = stopped out_of_fuel
  count_matches (suc fuel) ctx q m cptr n =
      elim (run fuel ctx true
        (record { machine = m; pc = q.body; cptr = cptr; stack_len = q.regs.stack_len })) [
          | hit cptr' m' ↦ elim (leb q.quant_max (n + 1) && not (q.quant_max == int32_max)) [
            | true ↦ counted (n + 1) cptr' m'
            | false ↦ count_matches fuel ctx q m' cptr' (n + 1)
          ]
          | miss m' ↦ counted n cptr m'
          | failed m' ↦ stopped (failed m')
          | fault ↦ stopped fault
          | out_of_fuel ↦ stopped out_of_fuel
        ]

  -- What follows the loop of the quantifier.
  pub quantified : ℕ → Context → Bool → Quantifier → ℕ → ℕ → Machine → Result
  quantified zero ctx no_recurse q n cptr m = out_of_fuel
  quantified (suc fuel) ctx no_recurse q n cptr m = elim (ltb n q.quant_min) [
    | true ↦ elim no_recurse [ true ↦ miss m | false ↦ recurse fuel ctx false m ]
    | false ↦ elim (ltb q.quant_min n) [
      | true ↦
          elim (push_state ctx m q.regs.stack_len (q.body - 16) cptr greedy_quant
            (n - q.quant_min)) [
              | none ↦ failed m
              | some m' ↦ run fuel ctx no_recurse (record {
                machine = m';
                pc = q.regs.pc;
                cptr = cptr;
                stack_len = q.regs.stack_len;
              })
            ]
      | false ↦
          run fuel ctx no_recurse
            (record { machine = m; pc = q.regs.pc; cptr = cptr; stack_len = q.regs.stack_len })
    ]
  ]

-- The header of compiled bytecode: flags, number of captures, stack size, length.
abbrev pub re_header_len : ℕ
re_header_len = 7

-- The outcome of `lre_exec`: 1 with the captures, 0, or -1.
pub data Outcome : Type 0 where
  found : List (Option ℕ) → Outcome
  not_found memory_error undefined not_finished : Outcome

unfoldable pub outcome : Result → Outcome
outcome (hit p m) = found m.capture
outcome (miss m) = not_found
outcome (failed m) = memory_error
outcome fault = undefined
outcome out_of_fuel = not_finished

-- The context and the first registers of `lre_exec`. The captures start as NULL; the stack's
-- entries are not read before they are written.
unfoldable pub start_context :
    (ℕ → Bool → ℕ) → (ℕ → Bool) → List ℕ → List ℕ → ℕ → ℕ → ℕ → ℕ → Context
start_context canonicalize alloc bc cbuf cbuf_addr cbuf_type flags capture_count =
    let is_utf16 = not (bit_and flags 16 == 0) in
    record {
      bc = bc;
      cbuf = cbuf;
      cbuf_addr = cbuf_addr;
      cbuf_type = if cbuf_type == 1 && is_utf16 then 2 else cbuf_type;
      capture_count = capture_count;
      multi_line = not (bit_and flags 4 == 0);
      ignore_case = not (bit_and flags 2 == 0);
      canonicalize = λ c. canonicalize c is_utf16;
      alloc = alloc;
    }

unfoldable pub start_regs : ℕ → ℕ → ℕ → Regs
start_regs capture_count stack_size_max cindex = record {
  machine = record {
    capture = replicate (2 * capture_count) none;
    stack = replicate stack_size_max 0;
    states = [];
    state_stack_size = 0;
  };
  pc = re_header_len;
  cptr = cindex;
  stack_len = 0;
}

-- `lre_exec`, on the subject at `cbuf_addr` from `cindex` on, with fuel for its instructions.
unfoldable pub lre_exec :
    ℕ → (ℕ → Bool → ℕ) → (ℕ → Bool) → List ℕ → List ℕ → ℕ → ℕ → ℕ → Option Outcome
unfolding outcome start_context start_regs
lre_exec fuel canonicalize alloc bc cbuf cbuf_addr cindex cbuf_type = do
  flags ← get_u8 bc 0
  capture_count ← get_u8 bc 1
  stack_size_max ← get_u8 bc 2
  let ctx = start_context canonicalize alloc bc cbuf cbuf_addr cbuf_type flags capture_count
  some (outcome (run fuel ctx false (start_regs capture_count stack_size_max cindex)))
