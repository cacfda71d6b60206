-- ===== src/Controller/Busy.antt =====
-- The slots that run while a script runs, and one session that has not ended: the runner is busy,
-- so that no script of theirs is run.
pub mod Rules
pub mod Operations
pub mod Removal
pub mod Timer
pub mod Serve
pub mod Nested
