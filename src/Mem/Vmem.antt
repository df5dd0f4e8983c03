-- ===== src/Mem/Vmem.antt =====
-- kernel/src/mem/vmem.rs: the virtual-address arena with boundary tags and size classes.
pub mod Arena
pub mod Take
pub mod Fit
pub mod Alloc
pub mod Release
pub mod Tiles
pub mod Pieces
pub mod Taking
pub mod Allocates
pub mod Placing
pub mod Fixed
pub mod Merging
pub mod Freeing
pub mod RoundTrip
mod Tests
