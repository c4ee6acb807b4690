-- ===== src/Click2Db.antt =====
-- The handler `click2db`: src/flexetl/click2db.h and click2db.cpp.
pub mod Convert
pub mod Init
pub mod Block
pub mod State
pub mod LifeProc
pub mod Toy
mod Tests
