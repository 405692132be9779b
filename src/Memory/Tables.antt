-- ===== src/Memory/Tables.antt =====
-- ex5/VirtualMemory.cpp: frames that serve as page tables.
pub mod Clear
pub mod Empty
pub mod Unlink
pub mod Search
