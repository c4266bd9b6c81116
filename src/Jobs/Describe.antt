-- ===== src/Jobs/Describe.antt =====
-- src/jobs/describe.rs: the request for a job, or for the next one.
use rustot.Prelude.{
  ℕ, ◌+◌, Bool, true, false, Option, none, some, List, Outcome, ok, assert, length, ltb, Str,
}
use rustot.Prelude.Fallible.{◌>>◌}
use rustot.Prelude.Stateful.{Exec}
use rustot.Deps.{Deps}
use rustot.Mqtt.{Mqtt, QoS}
use rustot.Ota.Error.{JobError}
use rustot.Jobs.Topics.{JobTopic}
use rustot.Jobs.Requests
use rustot.Jobs.Requests.{
  I64, Json, Request, then_true, fits_token, published, max_thing_name_len, max_job_id_len,
  max_client_token_len,
}

pub record Describe : Type 0 where
  pub job_id : Option Str
  pub client_token : Option Str
  pub include_job_document : Bool
  pub execution_number : Option I64

unfoldable pub new : Describe
new = record {
  job_id = none;
  client_token = none;
  include_job_document = false;
  execution_number = none;
}

unfoldable pub client_token : {E : Type 0} → Str → Describe → Outcome E Describe
client_token token r = do assert (fits_token token); ok (record r { client_token = some token })

unfoldable pub job_id : {E : Type 0} → Str → Describe → Outcome E Describe
job_id id r = do assert (ltb (length id) max_job_id_len); ok (record r { job_id = some id })

unfoldable pub include_job_document : Describe → Describe
include_job_document r = record r { include_job_document = true }

unfoldable pub execution_number : I64 → Describe → Describe
execution_number n r = record r { execution_number = some n }

-- `self.job_id.map(JobTopic::Get).unwrap_or(JobTopic::GetNext)`
unfoldable pub topic_of : Option Str → JobTopic
topic_of none = JobTopic.get_next
topic_of (some id) = JobTopic.get id

unfoldable pub request : {d : Deps} → Describe → Request d
request r = Request.describe (record {
  execution_number = r.execution_number;
  include_job_document = then_true r.include_job_document;
  client_token = r.client_token;
})

module _ {d : Deps} (json : Json d) where
  unfoldable pub topic_payload : Describe → Str → Outcome JobError (Str × List ℕ)
  unfolding Requests.topic_payload request topic_of
  topic_payload r =
      Requests.topic_payload json (max_thing_name_len + max_job_id_len + 22)
        (max_client_token_len + 2) (topic_of r.job_id) (request r)

  unfoldable pub send : Mqtt d → QoS → Describe → Exec d.World JobError (Unit {0})
  unfolding topic_payload published
  send mqtt qos r = published mqtt qos (topic_payload r mqtt.client_id)
