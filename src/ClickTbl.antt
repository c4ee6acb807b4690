-- ===== src/ClickTbl.antt =====
-- The tables of rows: src/flexetl/clicktbl.h, clicktbl.inl and clicktbl.cpp.
pub mod Value
pub mod Column
pub mod Table
pub mod Int32
pub mod Stream
pub mod Save
pub mod Load
pub mod Memory
pub mod Encoding
pub mod Fuel
pub mod RoundTrip
pub mod Getters
mod Tests
