-- ===== src/Jobs/Update/Room.antt =====
-- src/jobs/update.rs: the topic of a report and the room for it.
use rustot.Prelude.{
  ℕ, ◌≤◌, ◌<◌, ◌≡◌, some, List, ok, arith, length, length-append, Str, codes, ◌++◌, ◌∷◌,
}
use rustot.Deps.{Deps, MapLaws}
use rustot.Jobs.Topics.{JobTopic, tail, topic_path}
use rustot.Jobs.Requests.{Json}
use rustot.Jobs.Requests.Room.{topic_payload-fits}
use rustot.Jobs.Update.{Update, request, topic_payload}

length-update_path :
    (job_id client_id : Str)
    → length job_id < 64
    → length client_id ≤ 128
    → length (topic_path (JobTopic.update job_id) client_id) ≤ 217
unfolding topic_path tail
length-update_path job_id client_id h l = omega (
  arith,
  length-append job_id (codes "/update"),
  length-append client_id (b'/' ∷ (codes "jobs" ++ b'/' ∷ (job_id ++ codes "/update"))),
)

-- Where the client's name has at most 128 bytes, the job's fewer than 64 and the request is encoded to
-- a payload, that payload goes to the job's update topic: the topic fits its string.
pub topic_payload_total :
    {d : Deps} (json : Json d) (u : Update d) (client_id : Str) (payload : List ℕ)
    → MapLaws d
    → length client_id ≤ 128
    → length u.job_id < 64
    → json.to_vec 512 (request u) ≡ some payload
    → topic_payload json u client_id ≡ ok (topic_path (JobTopic.update u.job_id) client_id, payload)
unfolding topic_payload
topic_payload_total json u client_id payload laws l h e =
    topic_payload-fits json 217 512 (JobTopic.update u.job_id) (request u) client_id payload laws
      (length-update_path u.job_id client_id h l) e
