-- ===== src/Examples.antt =====
-- The two programs under examples/: the generator of messages and the processor that echoes them.
pub mod MessageGen
pub mod MessageProc
