-- ===== src/FlexEtl.antt =====
-- The start of the program: src/flexetl/flexetl.cpp.
pub mod Expand
pub mod Init
mod Tests
