-- ===== src/Tasks.antt =====
-- backend/package_analysis/tasks.py: the Celery tasks and their helpers. Each handler reads the
-- clock once: `now` stands for every `timezone.now()` of one call.
pub mod Reuse
pub mod Queue
pub mod Outcome
pub mod Prepare
pub mod Saves
pub mod Run
pub mod Timeouts
pub mod Cleanup
pub mod Jobs
