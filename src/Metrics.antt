-- ===== src/Metrics.antt =====
-- The metrics of src/stem/metrics: counters that the program's threads add to, and the two threads
-- that report them.
pub mod Counters
pub mod Name
pub mod Registry
pub mod Send
mod Tests
