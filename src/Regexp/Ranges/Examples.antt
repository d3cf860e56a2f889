-- ===== src/Regexp/Ranges/Examples.antt =====
-- The class [a-z] emitted into an empty buffer and run on "b".
use quickjs_rs.Base.{ℕ, ◌<◌, ◌≡◌, refl, arith, some, List, [], ◌∷◌, true, false, if◌then◌else◌}
use quickjs_rs.CharRange.Meaning.{contains}
use quickjs_rs.DynBuf.{
  DynBuf, dbuf_put, make_room, dbuf_realloc, grow, store, le_bytes, dbuf_putc, dbuf_put_u16,
}
use quickjs_rs.DynBuf.Memory.{memcpy}
use quickjs_rs.DynBuf.Invariant.{IsValid}
use quickjs_rs.DynBuf.Examples.{generous}
use quickjs_rs.DynBuf.Run.{joined}
use quickjs_rs.Regexp.Chars.{get_char}
use quickjs_rs.Regexp.State.{Context, Regs, next, reject}
use quickjs_rs.Regexp.Step.{step, canon}
use quickjs_rs.Regexp.Emit.{
  re_emit_range, emit_intervals, highest, re_emit_op_u16, emit_ranges16, ignoring, last_code16,
  uint32_max,
}
use quickjs_rs.Regexp.Ranges.Class.{IsClass, class_pieces}
use quickjs_rs.Regexp.Ranges.Took.{Emitted, re_emit_range-Emitted, re_emit_range-step}

abbrev lower_case : List ℕ
lower_case = 97 ∷ 123 ∷ []

abbrev empty : DynBuf
empty = record { buf = []; size = 0; allocated_size = 0; error = false }

lower_case-IsClass : IsClass lower_case
lower_case-IsClass = record { canonical = omega arith; bounded = omega arith; few = omega arith }

empty-IsValid : IsValid empty
empty-IsValid = omega arith

re_emit_range-Emitted_example :
    Emitted empty (joined (class_pieces lower_case)) (re_emit_range generous tt empty lower_case)
re_emit_range-Emitted_example =
    re_emit_range-Emitted generous tt empty lower_case lower_case-IsClass empty-IsValid
      (omega arith)

abbrev code : List ℕ
code = 21 ∷ 1 ∷ 0 ∷ 97 ∷ 0 ∷ 122 ∷ 0 ∷ []

abbrev emitted : DynBuf
emitted = record { buf = code; size = 7; allocated_size = 7; error = false }

emits : re_emit_range generous tt empty lower_case ≡ some (tt, emitted, true)
unfolding re_emit_range emit_intervals highest re_emit_op_u16 emit_ranges16 ignoring last_code16
    dbuf_putc dbuf_put_u16 le_bytes dbuf_put make_room dbuf_realloc grow store memcpy
emits = refl

abbrev context : Context
context = record {
  bc = code;
  cbuf = 98 ∷ [];
  cbuf_addr = 4096;
  cbuf_type = 0;
  capture_count = 1;
  multi_line = false;
  ignore_case = false;
  canonicalize = λ c. c;
  alloc = λ n. true;
}

abbrev start : Regs
start = record {
  machine = record { capture = []; stack = []; states = []; state_stack_size = 0 };
  pc = 0;
  cptr = 0;
  stack_len = 0;
}

at_b : get_char 0 (98 ∷ []) 1 0 ≡ some (98, 1)
unfolding get_char
at_b = refl

below_max : canon context 98 < uint32_max
unfolding canon
below_max = omega arith

re_emit_range-step_example :
    step context start
    ≡ some (
        if contains lower_case (canon context 98)
        then next (record start { pc = 7; cptr = 1 })
        else reject start.machine)
re_emit_range-step_example =
    re_emit_range-step generous tt empty lower_case tt emitted context start 98 1 []
      lower_case-IsClass empty-IsValid (omega arith) emits refl refl refl (omega arith) at_b
      below_max
