-- ===== src/Jobs/Requests.antt =====
-- src/jobs/describe.rs, get_pending.rs, start_next.rs and update.rs: the requests that are encoded, and
-- how a builder sends one.
pub mod Room
use rustot.Prelude.{
  ℕ, ◌+◌, ◌≤◌, ◌≡◌, if◌then◌else◌, Bool, true, false, Option, none, some, List, Outcome, ok, err,
  panic, ok_or, length, ltb, Str, assert,
}
use rustot.Prelude.Fallible.{◌>>=◌, ◌>>◌}
use rustot.Prelude.Stateful.{Exec}
use rustot.Deps.{Deps}
use rustot.Mqtt.{Mqtt, QoS, on_mqtt}
use rustot.Ota.Error.{JobError}
use rustot.Jobs.DataTypes.{JobStatus}
use rustot.Jobs.Topics.{JobTopic, format}

abbrev pub max_thing_name_len : ℕ
max_thing_name_len = 128

abbrev pub max_client_token_len : ℕ
max_client_token_len = max_thing_name_len + 10

abbrev pub max_job_id_len : ℕ
max_job_id_len = 64

abbrev pub max_stream_id_len : ℕ
max_stream_id_len = max_job_id_len

-- An `i64` is handed on: a number stands for each of its values.
abbrev pub I64 : Type 0
I64 = ℕ

pub record DescribeJobExecutionRequest : Type 0 where
  pub execution_number : Option I64
  pub include_job_document : Option Bool
  pub client_token : Option Str

pub record GetPendingJobExecutionsRequest : Type 0 where
  pub client_token : Option Str

pub record StartNextPendingJobExecutionRequest : Type 0 where
  pub step_timeout_in_minutes : Option I64
  pub client_token : Option Str

pub record UpdateJobExecutionRequest (d : Deps) : Type 0 where
  pub execution_number : Option I64
  pub expected_version : Option I64
  pub include_job_document : Option Bool
  pub include_job_execution_state : Option Bool
  pub status : JobStatus
  pub status_details : Option d.Map
  pub step_timeout_in_minutes : Option I64
  pub client_token : Option Str

pub data Request (d : Deps) : Type 0 where
  describe : DescribeJobExecutionRequest → Request d
  get_pending : GetPendingJobExecutionsRequest → Request d
  start_next : StartNextPendingJobExecutionRequest → Request d
  update : UpdateJobExecutionRequest d → Request d

-- `serde_json_core::to_vec` into a `heapless::Vec` of some capacity.
pub record Json (d : Deps) : Type 0 where
  pub to_vec : ℕ → Request d → Option (List ℕ)

-- `flag.then(|| true)`
abbrev pub then_true : Bool → Option Bool
then_true false = none
then_true true = some true

-- The assertion on a client token.
abbrev pub fits_token : Str → Bool
fits_token client_token = ltb (length client_token) max_client_token_len

module _ {d : Deps} where
  -- The topic and the payload of a request, each in a buffer of some capacity.
  unfoldable pub topic_payload :
      Json d → ℕ → ℕ → JobTopic → Request d → Str → Outcome JobError (Str × List ℕ)
  topic_payload json topic_len payload_len topic request client_id = do
    payload ← ok_or JobError.encoding (json.to_vec payload_len request)
    path ← format d topic_len topic client_id
    ok (path, payload)

  -- `send`, from what `topic_payload` gave.
  unfoldable pub published :
      Mqtt d → QoS → Outcome JobError (Str × List ℕ) → Exec d.World JobError (Unit {0})
  published mqtt qos (ok (path, payload)) w =
      on_mqtt JobError.mqtt (mqtt.publish path payload qos) w
  published mqtt qos (err e) w = (err e, w)
  published mqtt qos panic w = (panic, w)

-- `to_vec` writes a text and fails where the text is longer than the buffer. A token is written with its
-- key around it, as `{"clientToken":"..."}`, and escapes make it longer only.
pub record JsonLaws (d : Deps) (json : Json d) (text : Request d → Str) : Type 0 where
  pub to_vec_lem :
      (n : ℕ) (r : Request d)
      → json.to_vec n r ≡ (if d.fits n (text r) then some (text r) else none)
  pub length-token :
      (token : Str)
      → 18 + length token
        ≤ length (
            text (
              Request.describe (record {
                execution_number = none;
                include_job_document = none;
                client_token = some token;
              })))
