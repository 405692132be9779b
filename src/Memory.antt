-- ===== src/Memory.antt =====
-- ex5: a library of virtual memory with hierarchical page tables.
pub mod Physical
pub mod Tables
pub mod Distance
mod Examples
