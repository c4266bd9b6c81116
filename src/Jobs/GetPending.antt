-- ===== src/Jobs/GetPending.antt =====
-- src/jobs/get_pending.rs: the request for the jobs of a thing that are not done.
use rustot.Prelude.{ℕ, ◌+◌, Option, none, some, List, Outcome, ok, assert, Str}
use rustot.Prelude.Fallible.{◌>>◌}
use rustot.Prelude.Stateful.{Exec}
use rustot.Deps.{Deps}
use rustot.Mqtt.{Mqtt, QoS}
use rustot.Ota.Error.{JobError}
use rustot.Jobs.Topics.{JobTopic}
use rustot.Jobs.Requests
use rustot.Jobs.Requests.{
  Json, Request, fits_token, published, max_thing_name_len, max_client_token_len,
}

pub record GetPending : Type 0 where
  pub client_token : Option Str

unfoldable pub new : GetPending
new = record { client_token = none }

unfoldable pub client_token : {E : Type 0} → Str → GetPending → Outcome E GetPending
client_token token r = do assert (fits_token token); ok (record { client_token = some token })

unfoldable pub request : {d : Deps} → GetPending → Request d
request r = Request.get_pending (record { client_token = r.client_token })

module _ {d : Deps} (json : Json d) where
  unfoldable pub topic_payload : GetPending → Str → Outcome JobError (Str × List ℕ)
  unfolding Requests.topic_payload request
  topic_payload r =
      Requests.topic_payload json (max_thing_name_len + 21) (max_client_token_len + 2)
        JobTopic.get_pending (request r)

  unfoldable pub send : Mqtt d → QoS → GetPending → Exec d.World JobError (Unit {0})
  unfolding topic_payload published
  send mqtt qos r = published mqtt qos (topic_payload r mqtt.client_id)
