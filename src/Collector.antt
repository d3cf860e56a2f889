-- ===== src/Collector.antt =====
-- The cycle collector of libquickjs-sys/embed/quickjs/quickjs.c: what an object refers to, the two
-- passes over the lists of objects that find the garbage cycles, and what the passes leave.
pub mod Marking
pub mod Passes
pub mod Sums
pub mod Invariants
pub mod Decref
pub mod Parting
pub mod Scan
pub mod Run
pub mod Restore
pub mod Cycles
pub mod Examples
