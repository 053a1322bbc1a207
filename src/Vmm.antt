-- ===== src/Vmm.antt =====
-- tp3/src: the virtual memory.
pub mod Conf
pub mod Memory
pub mod PageTable
pub mod Tlb
pub mod Frame
