-- ===== src/Dev.antt =====
-- The parts of kernel/src/dev: terminals.
pub mod Tty
