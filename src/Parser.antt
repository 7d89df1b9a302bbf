-- ===== src/Parser.antt =====
-- src/parser.c and include/parser.h.
pub mod Load
pub mod Heap
pub mod Options
