-- ===== src/Mem.antt =====
-- The parts of kernel/src/mem: the ordered index of metadata and the virtual-address arena.
pub mod Index
pub mod Phys
pub mod PhysSeg
pub mod Reserve
pub mod Vmem
