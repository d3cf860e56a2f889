-- ===== src/Regexp/Ranges.antt =====
-- Character classes in the bytecode of libregexp.c: `re_emit_range` writes the intervals of a
-- CharRange, and the search of the interpreter finds them again.
pub mod Halving
pub mod Match
pub mod Points
pub mod Bytes
pub mod Ends
pub mod Runs
pub mod Compiled
pub mod Class
pub mod Took
pub mod Examples
