-- ===== src/Threads.antt =====
-- The modules of daemon/src that coordinate threads, as steps on the state that the threads share.
pub mod Lanes
pub mod Flight
pub mod Drain
mod Samples
