-- ===== src/Sys.antt =====
-- The parts of kernel/src/sys: the sleeping reader/writer lock, clocks and the callout queue.
pub mod RwLock
pub mod Clock
pub mod Calendar
