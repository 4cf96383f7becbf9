-- ===== src/Tests.antt =====
-- Concrete inputs on which the theorems are applied.
mod Fixtures
mod Queues
mod Steps
mod Polling
mod Capturing
mod Enqueueing
mod Streams
mod Requests
mod Kinds
