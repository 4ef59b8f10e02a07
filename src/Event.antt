-- ===== src/Event.antt =====
-- event.cpp: what a thread of the pool does with an event, one module for each group of handlers.
pub mod Peers
pub mod Commit
pub mod Timeout
pub mod Handle
pub mod Keeping
pub mod Invariant
pub mod Halting
pub mod Transaction
pub mod Calm
pub mod Replicas
