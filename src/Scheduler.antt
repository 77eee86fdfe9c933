-- ===== src/Scheduler.antt =====
-- internal/cmd/scheduler.go: the periodic tasks that choose what the workers check next.
pub mod Chunks
pub mod Locks
pub mod Batches
pub mod Enqueue
