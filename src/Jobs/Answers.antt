-- ===== src/Jobs/Answers.antt =====
-- src/jobs/data_types.rs: the answers and notifications of the job service. A job document is of any
-- type.
use rustot.Prelude.{Option, List, Str}
use rustot.Deps.{Deps}
use rustot.Jobs.DataTypes.{JobStatus}
use rustot.Jobs.Requests.{I64}

pub data ErrorCode : Type 0 where
  invalid_topic invalid_json invalid_request invalid_state_transition resource_not_found
        version_mismatch internal_error request_throttled terminal_state_reached :
      ErrorCode

pub record JobExecution (d : Deps) (J : Type 0) : Type 0 where
  pub approximate_seconds_before_timed_out : Option I64
  pub execution_number : Option I64
  pub job_document : Option J
  pub job_id : Str
  pub last_updated_at : I64
  pub queued_at : I64
  pub started_at : Option I64
  pub status : JobStatus
  pub status_details : Option d.Map
  pub thing_name : Option Str
  pub version_number : I64

pub record JobExecutionState (d : Deps) : Type 0 where
  pub status : JobStatus
  pub status_details : Option d.Map
  pub version_number : I64

pub record JobExecutionSummary : Type 0 where
  pub execution_number : Option I64
  pub job_id : Option Str
  pub last_updated_at : Option I64
  pub queued_at : Option I64
  pub started_at : Option I64
  pub version_number : Option I64

pub record DescribeJobExecutionResponse (d : Deps) (J : Type 0) : Type 0 where
  pub execution : Option (JobExecution d J)
  pub timestamp : I64
  pub client_token : Str

-- The lists hold `MAX_RUNNING_JOBS` and `MAX_PENDING_JOBS` entries at most.
pub record GetPendingJobExecutionsResponse : Type 0 where
  pub in_progress_jobs : Option (List JobExecutionSummary)
  pub queued_jobs : Option (List JobExecutionSummary)
  pub timestamp : I64
  pub client_token : Str

pub record StartNextPendingJobExecutionResponse (d : Deps) (J : Type 0) : Type 0 where
  pub execution : Option (JobExecution d J)
  pub timestamp : I64
  pub client_token : Str

pub record UpdateJobExecutionResponse (d : Deps) (J : Type 0) : Type 0 where
  pub execution_state : Option (JobExecutionState d)
  pub job_document : Option J
  pub timestamp : I64
  pub client_token : Str

pub record Jobs : Type 0 where
  pub queued : Option (List JobExecutionSummary)
  pub in_progress : Option (List JobExecutionSummary)

pub record JobExecutionsChanged : Type 0 where
  pub jobs : Option Jobs
  pub timestamp : I64

pub record NextJobExecutionChanged (d : Deps) (J : Type 0) : Type 0 where
  pub execution : Option (JobExecution d J)
  pub timestamp : I64

pub record ErrorResponse (d : Deps) : Type 0 where
  pub code : ErrorCode
  pub message : Str
  pub client_token : Option Str
  pub timestamp : I64
  pub execution_state : Option (JobExecutionState d)
