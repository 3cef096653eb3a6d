-- ===== src/Memory.antt =====
-- Hierarchical_Virtual_Memory_System/: `Physical` is PhysicalMemory.cpp with the constants of
-- MemoryConstants.h, `Distance`, `Traversal`, `Frames` and `Virtual` are VirtualMemory.cpp.
pub mod Physical
pub mod Distance
pub mod Traversal
pub mod Frames
pub mod Virtual
pub mod Witnesses
