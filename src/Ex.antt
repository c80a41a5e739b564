-- ===== src/Ex.antt =====
-- The executive (system32/ntos/ex): the reader/writer lock and the lookaside lists.
pub mod Resource
pub mod Lookaside
