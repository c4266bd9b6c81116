-- ===== src/Jobs/DataTypes.antt =====
-- src/jobs/data_types.rs: the states of a job execution.
pub data JobStatus : Type 0 where
  queued in_progress failed succeeded canceled rejected removed : JobStatus
