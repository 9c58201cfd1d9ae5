-- ===== src/Queue.antt =====
-- calvin/runtime/north/plugins/port/queue: the token queues of the ports.
pub mod Common
pub mod Fanout
pub mod Routed
pub mod Ordered
pub mod Balanced
pub mod Mapped
pub mod Collect
