-- ===== src/Lib.antt =====
-- The string and text core of the JavaScript engine embedded in libquickjs-sys, as a model that
-- runs, and theorems about it. The engine is C; its files are under
-- libquickjs-sys/embed/quickjs/. A model function has the name of the C function.
--
-- Base: numbers, lists, words with their wrap-around, and bit operations.
-- Utf8: `unicode_to_utf8` and `unicode_from_utf8` of cutils.c.
-- DynBuf: the growing buffer of cutils.c and cutils.h, with `realloc` as a parameter: a function
--   on a state of the heap that may fail. `DynBuf.Memory.Allocator` says what is asked of it. A
--   store out of the allocated bytes is `none`.
-- CharRange: the character ranges of libunicode.c and libunicode.h, sorted lists of points. The
--   allocator is a function that says yes or no; sizes stay below the range of `int`, points below
--   that of `uint32_t`.
-- Regexp: the bytecode interpreter of libregexp.c. Regexp.Step is one instruction, with the
--   bytecode, the subject and the registers as arguments; Regexp.Exec is the loop, with the
--   stack of saved states and the call for the body of a greedy quantifier. A pointer into the
--   subject is an index, and where the stack holds one as a number, the address that goes with
--   it; the subject's own address is an argument. A pointer to before the subject, to which
--   `PREV_CHAR` can go in a greedy quantifier's saved state, is undefined behaviour. A read out of
--   the bytecode, the subject or the stack is `none`, and the outcome `undefined`. The loop takes
--   fuel, one unit for an instruction: bytecode may loop for ever, and the outcome is then
--   `not_finished`. `lre_canonicalize` is a parameter here, as is the allocator of saved states.
--   Regexp.Escape is `lre_parse_escape` and `parse_digits`, on a text that ends with a NUL.
--   Regexp.Static is `re_check_advance`, `re_is_simple_quantifier` and `compute_stack_size`; their
--   loop goes on by a byte or more, so the bytecode's length and one is fuel enough. Regexp.Bounds
--   is about one instruction of the interpreter, Regexp.Static.Run about the call for the body of
--   a quantifier that `re_is_simple_quantifier` has let through. Regexp.Emit is the part of the
--   compiler that writes instructions, with the class of characters of `re_emit_range`, and
--   Regexp.Ranges follows a class from there to the interpreter.
-- Collector: the trial deletion of `JS_RunGC` in quickjs.c. Collector.Marking is what each type of
--   GC object refers to, Collector.Passes `gc_decref` and `gc_scan`. A header is a number; the
--   counts, the marks and the two lists are the state, the rest of the memory does not change. The
--   loops take a round for each object, which is fuel enough. `gc_mark` of a class is data.
-- JsString: comparison, hashing and array indices of the strings of quickjs.c. A string is the list
--   of its units; the result of `memcmp` is taken to be the first difference, as in `memcmp16`.
-- UnicodeTable: `lre_is_in_table` of libunicode.c, with the table and its index as arguments. The
--   loop takes a byte or more in each round, and the index halves.
-- Leb128: the integers of variable length of quickjs.c, on DynBuf; five groups of seven bits hold
--   a word.
-- Strings: `pstrcpy`, `pstrcat`, `strstart` and `has_suffix` of cutils.c.
-- LinkedList: list.h, on a store of the two pointers of every node.
--
-- Not modelled: the parser of regular expressions apart from these parts, the tables of
-- libunicode-table.h, big numbers (libbf.c), the engine's values, objects, finalizers (with
-- `gc_free_cycles`) and interpreter (quickjs.c), the command line tools, and the Rust crates around
-- the engine.
pub mod Base
pub mod CharRange
pub mod Collector
pub mod DynBuf
pub mod JsString
pub mod Leb128
pub mod LinkedList
pub mod Regexp
pub mod Strings
pub mod UnicodeTable
pub mod Utf8
