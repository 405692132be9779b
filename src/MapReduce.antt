-- ===== src/MapReduce.antt =====
-- ex3/MapReduceFramework.cpp: a framework of threads for MapReduce.
pub mod Barrier
pub mod Shuffle
pub mod Mapping
pub mod Reducing
pub mod Conserved
pub mod Framework
pub mod Launch
pub mod Output
pub mod System
mod Schedule
mod Examples
mod Scenarios
