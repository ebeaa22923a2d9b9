-- ===== src/Sched.antt =====
-- The scheduler's queues, src/sched.
pub mod Dpc
