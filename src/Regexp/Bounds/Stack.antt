-- ===== src/Regexp/Bounds/Stack.antt =====
-- The instructions on the stack, the captures and the saved states keep the indices in the subject.
use quickjs_rs.Base.{
  ℕ, zero, suc, ◌+◌, ◌-◌, ◌*◌, ◌/◌, if◌then◌else◌, ◌≤◌, Option, none, some, List, Bool, true, false,
  length, get_elem?, ltb, if_cases, Bool-cases, inl, inr,
}
use quickjs_rs.Base.Partial.{check}
use quickjs_rs.Regexp.Opcode.{get_u8, get_u32, jump}
use quickjs_rs.Regexp.State.{
  Context, StateType, Machine, Regs, Step, next, error, push_state, split,
}
use quickjs_rs.Regexp.Step.{
  branch, save_state, do_split, do_lookahead, do_goto, do_save, do_save_reset, reset_captures, push,
  do_push_i32, do_drop, do_loop, do_bne_char_pos, do_quantifier,
}
use quickjs_rs.Regexp.Bounds.{
  AllInText, MachineInText, RegsInText, StepInText, Ensures, Ensures-then, AllInText-set,
}

-- The captures that are reset are NULL.
reset_captures-InText :
    (n left val : ℕ) (cs : List (Option ℕ))
    → AllInText n cs
    → AllInText n (reset_captures left val cs)
unfolding reset_captures
reset_captures-InText n zero val cs a = a
reset_captures-InText n (suc left) val cs a =
    reset_captures-InText n left (val + 1) _
      (AllInText-set n _ (2 * val + 1) none tt (AllInText-set n cs (2 * val) none tt a))

module _ (ctx : Context) where
  abbrev len : ℕ
  len = length ctx.cbuf

  abbrev Good : Option Step → Type 0
  Good = Ensures (StepInText len)

  -- New values of the registers that are not in the subject.
  pub moved :
      (r : Regs) (pc stack_len : ℕ)
      → RegsInText len r
      → RegsInText len (record r { pc = pc; stack_len = stack_len })
  moved r pc stack_len v = record { machine = v.machine; at = v.at }

  pub with_stack :
      (m : Machine) (stack : List ℕ)
      → MachineInText len m
      → MachineInText len (record m { stack = stack })
  with_stack m stack v = record { captures = v.captures; saved = v.saved }

  pub push_state-InText :
      (m : Machine) (stack_len pc cptr : ℕ) (type : StateType) (count : ℕ)
      → MachineInText len m
      → cptr ≤ len
      → Ensures (MachineInText len) (push_state ctx m stack_len pc cptr type count)
  unfolding push_state
  push_state-InText m stack_len pc cptr type count v at =
      let grown = m.state_stack_size * 3 / 2 in
      elim (Bool-cases (ltb m.state_stack_size (length m.states + 1))) [
        | inr room ↦
            rw (room, push_state)
              (record { captures = v.captures; saved = (at, v.captures, v.saved) })
        | inl grow ↦ elim (Bool-cases (ctx.alloc (if ltb grown 8 then 8 else grown))) [
          | inl had ↦
              rw (grow, push_state, had)
                (record { captures = v.captures; saved = (at, v.captures, v.saved) })
          | inr none_had ↦ rw (grow, push_state, none_had) tt
        ]
      ]

  pub save_state-InText :
      (r : Regs) (saved_pc : ℕ) (type : StateType) (pc : ℕ)
      → RegsInText len r
      → Good (save_state ctx r saved_pc type pc)
  unfolding save_state
  save_state-InText r saved_pc type pc v =
      pushed (push_state ctx r.machine r.stack_len saved_pc r.cptr type 0)
        (push_state-InText r.machine r.stack_len saved_pc r.cptr type 0 v.machine v.at)
    where
      pushed :
          (o : Option Machine)
          → Ensures (MachineInText len) o
          → StepInText len (elim o [
            | none ↦ error r.machine
            | some m ↦ next (record r { machine = m; pc = pc })
          ])
      pushed none h = v.machine
      pushed (some m) h = record { machine = h; at = v.at }

  pub do_split-InText : (first : Bool) (r : Regs) → RegsInText len r → Good (do_split ctx first r)
  unfolding do_split
  do_split-InText first r v = Ensures-then (StepInText len) (get_u32 ctx.bc r.pc) _ λ val.
      Ensures-then (StepInText len) (jump (r.pc + 4) val) _ λ target.
        if_cases Good first (λ yes. save_state-InText r target split (r.pc + 4) v)
          (λ no. save_state-InText r (r.pc + 4) split target v)

  pub do_lookahead-InText :
      (type : StateType) (r : Regs) → RegsInText len r → Good (do_lookahead ctx type r)
  unfolding do_lookahead
  do_lookahead-InText type r v = Ensures-then (StepInText len) (get_u32 ctx.bc r.pc) _ λ val.
      Ensures-then (StepInText len) (jump (r.pc + 4) val) _
        λ target. save_state-InText r target type (r.pc + 4) v

  pub do_goto-InText : (r : Regs) → RegsInText len r → Good (do_goto ctx r)
  unfolding do_goto
  do_goto-InText r v =
      Ensures-then (StepInText len) (get_u32 ctx.bc r.pc) _
        λ val. Ensures-then (StepInText len) (jump (r.pc + 4) val) _ λ pc. moved r pc r.stack_len v

  pub do_save-InText : (side : ℕ) (r : Regs) → RegsInText len r → Good (do_save ctx side r)
  unfolding do_save
  do_save-InText side r v = Ensures-then (StepInText len) (get_u8 ctx.bc r.pc) _ λ val.
      Ensures-then (StepInText len) (check (ltb val ctx.capture_count)) _ λ u. record {
        machine = record {
          captures =
              AllInText-set len r.machine.capture (2 * val + side) (some r.cptr) v.at
                v.machine.captures;
          saved = v.machine.saved;
        };
        at = v.at;
      }

  pub do_save_reset-InText : (r : Regs) → RegsInText len r → Good (do_save_reset ctx r)
  unfolding do_save_reset
  do_save_reset-InText r v = Ensures-then (StepInText len) (get_u8 ctx.bc r.pc) _ λ val.
      Ensures-then (StepInText len) (get_u8 ctx.bc (r.pc + 1)) _ λ val2.
        Ensures-then (StepInText len) (check (ltb val2 ctx.capture_count)) _ λ u. record {
          machine = record {
            captures =
                reset_captures-InText len (val2 + 1 - val) val r.machine.capture v.machine.captures;
            saved = v.machine.saved;
          };
          at = v.at;
        }

  pub push-InText : (val pc : ℕ) (r : Regs) → RegsInText len r → Good (push ctx val pc r)
  unfolding push
  push-InText val pc r v =
      Ensures-then (StepInText len) (check (ltb r.stack_len (length r.machine.stack))) _
        λ u. record { machine = with_stack r.machine _ v.machine; at = v.at }

  pub do_push_i32-InText : (r : Regs) → RegsInText len r → Good (do_push_i32 ctx r)
  unfolding do_push_i32
  do_push_i32-InText r v =
      Ensures-then (StepInText len) (get_u32 ctx.bc r.pc) _ λ val. push-InText val (r.pc + 4) r v

  pub do_drop-InText : (r : Regs) → RegsInText len r → Good (do_drop ctx r)
  unfolding do_drop
  do_drop-InText r v =
      Ensures-then (StepInText len) (check (ltb 0 r.stack_len)) _
        λ u. moved r r.pc (r.stack_len - 1) v

  pub branch-InText :
      (taken : Bool) (val : ℕ) (r : Regs) → RegsInText len r → Good (branch ctx taken val r)
  unfolding branch
  branch-InText false val r v = v
  branch-InText true val r v =
      Ensures-then (StepInText len) (jump r.pc val) _ λ pc. moved r pc r.stack_len v

  pub do_loop-InText : (r : Regs) → RegsInText len r → Good (do_loop ctx r)
  unfolding do_loop
  do_loop-InText r v = Ensures-then (StepInText len) (get_u32 ctx.bc r.pc) _ λ val.
      Ensures-then (StepInText len) (check (ltb 0 r.stack_len)) _ λ u.
        Ensures-then (StepInText len) (get_elem? r.machine.stack (r.stack_len - 1)) _ λ top.
          branch-InText _ val _ (record { machine = with_stack r.machine _ v.machine; at = v.at })

  pub do_bne_char_pos-InText : (r : Regs) → RegsInText len r → Good (do_bne_char_pos ctx r)
  unfolding do_bne_char_pos
  do_bne_char_pos-InText r v = Ensures-then (StepInText len) (get_u32 ctx.bc r.pc) _ λ val.
      Ensures-then (StepInText len) (check (ltb 0 r.stack_len)) _ λ u.
        Ensures-then (StepInText len) (get_elem? r.machine.stack (r.stack_len - 1)) _
          λ top. branch-InText _ val _ (moved r (r.pc + 4) (r.stack_len - 1) v)

  pub do_quantifier-InText : (r : Regs) → RegsInText len r → Good (do_quantifier ctx r)
  unfolding do_quantifier
  do_quantifier-InText r v = Ensures-then (StepInText len) (get_u32 ctx.bc r.pc) _ λ next_pos.
      Ensures-then (StepInText len) (get_u32 ctx.bc (r.pc + 4)) _ λ quant_min.
        Ensures-then (StepInText len) (get_u32 ctx.bc (r.pc + 8)) _ λ quant_max.
          Ensures-then (StepInText len) (jump (r.pc + 16) next_pos) _ λ pc. moved r pc r.stack_len v
