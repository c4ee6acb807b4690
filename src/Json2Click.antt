-- ===== src/Json2Click.antt =====
-- The handler `json2click`: src/flexetl/json2click.h and json2click.cpp.
pub mod Event
pub mod Handler
pub mod Line
pub mod State
pub mod LifeProc
pub mod Init
mod Tests
