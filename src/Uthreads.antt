-- ===== src/Uthreads.antt =====
-- Uthreads_Library/uthreads.cpp and uthreads.h: the user-level thread library. `Machine` has the
-- data, the global variables and the signal mask, `Containers` the maps, `Scheduler` the handler
-- of SIGVTALRM and `Api` the calls of uthreads.h.
pub mod Machine
pub mod Containers
pub mod Scheduler
pub mod Api
pub mod Invariant
pub mod Safety
pub mod Lifetime
pub mod Starting
pub mod RoundRobin
pub mod Samples
pub mod Witnesses
