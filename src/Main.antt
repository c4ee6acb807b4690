-- ===== src/Main.antt =====
-- The process: src/flexetl/main.cpp, src/stem/pid_file.h and src/stem/spdlog_init.h.
pub mod PidFile
pub mod Logging
pub mod Run
mod Tests
