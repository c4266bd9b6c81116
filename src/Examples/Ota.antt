-- ===== src/Examples/Ota.antt =====
-- examples/ota.rs: what a device makes of a message that comes in.
pub mod Dispatch
pub mod Device
pub mod Loop
use rustot.Prelude.{ℕ, Option, none, some, List, Outcome, ok, err, panic, ok_or, Str}
use rustot.Prelude.Fallible.{◌>>=◌}
use rustot.Deps.{Deps}
use rustot.Jobs.Topics.{Topic, read_topic}
use rustot.Jobs.Answers.{JobExecution, DescribeJobExecutionResponse, NextJobExecutionChanged}
use rustot.Ota.Encoding.Json.{OtaJob}
use rustot.Ota.DataInterface.Mqtt.Topics
use rustot.Ota.DataInterface.Mqtt.Topics.{read_stream_topic}

-- The documents of the jobs that the device knows.
pub data Jobs : Type 0 where
  ota : OtaJob → Jobs

unfoldable pub ota_job : Jobs → Option OtaJob
ota_job (ota job) = some job

pub data OtaUpdate (d : Deps) : Type 0 where
  job_update : Str → OtaJob → Option d.Map → OtaUpdate d
  block : List ℕ → OtaUpdate d

-- `serde_json_core::from_slice` at the types of the answers.
pub record Reader (d : Deps) : Type 0 where
  pub next_changed : List ℕ → Option (NextJobExecutionChanged d Jobs)
  pub described : List ℕ → Option (DescribeJobExecutionResponse d Jobs)

-- `Err(())`
abbrev pub Fallible : Type 0 → Type 0
Fallible A = Outcome (Unit {0}) A

module _ {d : Deps} where
  unfoldable pub job_of : Option (JobExecution d Jobs) → Fallible (OtaUpdate d)
  unfolding ota_job
  job_of execution = do
    job ← ok_or tt execution
    document ← ok_or tt job.job_document
    ota_job ← ok_or tt (ota_job document)
    ok (OtaUpdate.job_update job.job_id ota_job job.status_details)

  unfoldable pub stream_of : Option Topics.Topic → List ℕ → Fallible (OtaUpdate d)
  stream_of (some (Topics.Topic.stream_data e stream)) payload = ok (OtaUpdate.block payload)
  stream_of _ payload = err tt

  unfoldable pub job_or_stream : Reader d → Option Topic → Str → List ℕ → Fallible (OtaUpdate d)
  unfolding job_of stream_of
  job_or_stream reader (some Topic.notify_next) topic_name payload = do
    changed ← ok_or tt (reader.next_changed payload)
    job_of changed.execution
  job_or_stream reader (some (Topic.describe_accepted _)) topic_name payload = do
    changed ← ok_or tt (reader.described payload)
    job_of changed.execution
  job_or_stream reader _ topic_name payload = stream_of (read_stream_topic topic_name) payload

  unfoldable pub handle_ota : Reader d → Str → List ℕ → Fallible (OtaUpdate d)
  unfolding job_or_stream
  handle_ota reader topic_name payload =
      job_or_stream reader (read_topic topic_name) topic_name payload
