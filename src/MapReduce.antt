-- ===== src/MapReduce.antt =====
-- MapReduce_Framework/: `Barrier` is Barrier.cpp, `Framework` the data and the sequential parts of
-- MapReduceFramework.cpp, `Threads` what its threads do, `Progress` the state that it reports.
pub mod Barrier
pub mod Framework
pub mod Threads
pub mod Progress
pub mod Handle
pub mod Samples
pub mod Witnesses
