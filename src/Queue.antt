-- ===== src/Queue.antt =====
-- lib/src/device/queue.rs and lib/src/device/queue/: a queue of V4L2 buffers and the bookkeeping of
-- the state of each of its buffers.
pub mod Buffers
pub mod Allocated
pub mod Queueing
pub mod Dequeueing
pub mod Protocol
pub mod Creation
pub mod Pool
pub mod Provider
