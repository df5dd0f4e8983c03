-- ===== src/Driver.antt =====
-- The parts of kernel/src/driver: what a device is described by.
pub mod Resource
pub mod Property
