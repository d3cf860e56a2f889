-- ===== src/Regexp.antt =====
-- The regular expressions of libquickjs-sys/embed/quickjs/libregexp.c: bytecode, its checks and
-- its execution by backtracking.
pub mod Opcode
pub mod Chars
pub mod State
pub mod Search
pub mod Emit
pub mod Ranges
pub mod Step
pub mod Exec
pub mod Escape
pub mod Static
pub mod Bounds
pub mod Examples
