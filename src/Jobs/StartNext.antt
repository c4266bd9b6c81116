-- ===== src/Jobs/StartNext.antt =====
-- src/jobs/start_next.rs: the request to start the next job.
use rustot.Prelude.{ℕ, ◌+◌, Option, none, some, List, Outcome, ok, assert, Str}
use rustot.Prelude.Fallible.{◌>>◌}
use rustot.Prelude.Stateful.{Exec}
use rustot.Deps.{Deps}
use rustot.Mqtt.{Mqtt, QoS}
use rustot.Ota.Error.{JobError}
use rustot.Jobs.Topics.{JobTopic}
use rustot.Jobs.Requests
use rustot.Jobs.Requests.{
  I64, Json, Request, fits_token, published, max_thing_name_len, max_client_token_len,
}

pub record StartNext : Type 0 where
  pub client_token : Option Str
  pub step_timeout_in_minutes : Option I64

unfoldable pub new : StartNext
new = record { client_token = none; step_timeout_in_minutes = none }

unfoldable pub client_token : {E : Type 0} → Str → StartNext → Outcome E StartNext
client_token token r = do assert (fits_token token); ok (record r { client_token = some token })

unfoldable pub step_timeout_in_minutes : I64 → StartNext → StartNext
step_timeout_in_minutes n r = record r { step_timeout_in_minutes = some n }

unfoldable pub request : {d : Deps} → StartNext → Request d
request r =
    Request.start_next (record {
      step_timeout_in_minutes = r.step_timeout_in_minutes;
      client_token = r.client_token;
    })

module _ {d : Deps} (json : Json d) where
  unfoldable pub topic_payload : StartNext → Str → Outcome JobError (Str × List ℕ)
  unfolding Requests.topic_payload request
  topic_payload r =
      Requests.topic_payload json (max_thing_name_len + 28) (max_client_token_len + 2)
        JobTopic.start_next (request r)

  unfoldable pub send : Mqtt d → QoS → StartNext → Exec d.World JobError (Unit {0})
  unfolding topic_payload published
  send mqtt qos r = published mqtt qos (topic_payload r mqtt.client_id)
