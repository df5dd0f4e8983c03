-- ===== src/Proc.antt =====
-- The parts of kernel/src/proc: anonymous pipes, timer descriptors and signals.
pub mod Pipe
pub mod TimerFd
pub mod Signal
