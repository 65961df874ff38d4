-- ===== src/Schedule.antt =====
-- When profiles run: src/application/scheduling.py computes the next instant of a schedule in the
-- Backup Timezone, and the scheduler of src/pipeline/schedule.py queues what is due.
pub mod Civil
pub mod Next
pub mod Tick
