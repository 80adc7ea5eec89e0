-- ===== src/Demos.antt =====
-- demos/, the programs that show the library.
pub mod MemMap
pub mod Virt2phys
pub mod Performance
pub mod Example
pub mod MapPt
pub mod Uncachable
pub mod Nx
pub mod ClearBits
