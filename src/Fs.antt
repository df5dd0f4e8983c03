-- ===== src/Fs.antt =====
-- The parts of kernel/src/fs: error values and path parsing.
pub mod Error
pub mod FilePath
pub mod Partition
