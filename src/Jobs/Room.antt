-- ===== src/Jobs/Room.antt =====
-- src/jobs/describe.rs, get_pending.rs and start_next.rs: the topics of the requests and the room for
-- them.
use rustot.Prelude.{
  ℕ, ◌+◌, ◌≤◌, ◌<◌, ◌≡◌, Option, none, some, List, ok, arith, length, length-append, Str, codes,
  ◌++◌, ◌∷◌,
}
use rustot.Deps.{Deps, MapLaws}
use rustot.Jobs.Topics.{JobTopic, tail, topic_path}
use rustot.Jobs.Requests.{Json}
use rustot.Jobs.Requests.Room.{topic_payload-fits}
use rustot.Jobs.Describe
use rustot.Jobs.Describe.{Describe, topic_of}
use rustot.Jobs.GetPending
use rustot.Jobs.GetPending.{GetPending}
use rustot.Jobs.StartNext
use rustot.Jobs.Update
use rustot.Jobs.Update.{Update}
use rustot.Jobs.Update.Room.{topic_payload_total}
use rustot.Jobs.StartNext.{StartNext}

-- The length of the job's name where there is one.
abbrev pub job_len : Describe → ℕ
job_len r = elim r.job_id [ none ↦ 0 | some id ↦ length id ]

length-topic_path :
    (t : JobTopic) (client_id : Str)
    → length (topic_path t client_id) ≡ 18 + length client_id + length (tail t)
unfolding topic_path
length-topic_path t client_id =
    omega (arith, length-append client_id (b'/' ∷ (codes "jobs" ++ b'/' ∷ tail t)))

length-describe_path :
    (id : Option Str) (client_id : Str)
    → elim id [ none ↦ 0 | some j ↦ length j ] < 64
    → length client_id ≤ 128
    → length (topic_path (topic_of id) client_id) ≤ 214
unfolding topic_of tail
length-describe_path none client_id j l =
    omega (arith, length-topic_path JobTopic.get_next client_id)
length-describe_path (some id) client_id j l =
    omega (arith, length-topic_path (JobTopic.get id) client_id, length-append id (codes "/get"))

pub describe_total :
    {d : Deps} (json : Json d) (client_id : Str) (r : Describe) (payload : List ℕ)
    → MapLaws d
    → length client_id ≤ 128
    → job_len r < 64
    → json.to_vec 140 (Describe.request r) ≡ some payload
    → Describe.topic_payload json r client_id
      ≡ ok (topic_path (topic_of r.job_id) client_id, payload)
unfolding Describe.topic_payload
describe_total json client_id r payload laws l j e =
    topic_payload-fits json 214 140 (topic_of r.job_id) (Describe.request r) client_id payload laws
      (length-describe_path r.job_id client_id j l) e

-- Where the client's name has at most 128 bytes and a job's fewer than 64, the requests for a job, for
-- the pending jobs, to start the next one and to update one go to the topics of these requests, with
-- the payloads that they are encoded to: each topic fits its string.
pub requests_total :
    {d : Deps} (json : Json d) (client_id : Str) (r : Describe) (g : GetPending) (s : StartNext)
    (u : Update d) (described listed started updated : List ℕ)
    → MapLaws d
    → length client_id ≤ 128
    → job_len r < 64
    → length u.job_id < 64
    → json.to_vec 140 (Describe.request r) ≡ some described
    → json.to_vec 140 (GetPending.request g) ≡ some listed
    → json.to_vec 140 (StartNext.request s) ≡ some started
    → json.to_vec 512 (Update.request u) ≡ some updated
    → (Describe.topic_payload json r client_id
        ≡ ok (topic_path (topic_of r.job_id) client_id, described))
      × (GetPending.topic_payload json g client_id
          ≡ ok (topic_path JobTopic.get_pending client_id, listed))
      × (StartNext.topic_payload json s client_id
          ≡ ok (topic_path JobTopic.start_next client_id, started))
      × (Update.topic_payload json u client_id
          ≡ ok (topic_path (JobTopic.update u.job_id) client_id, updated))
unfolding GetPending.topic_payload StartNext.topic_payload tail
requests_total json client_id r g s u described listed started updated laws l j k e f h i = (
  describe_total json client_id r described laws l j e,
  topic_payload-fits json 149 140 JobTopic.get_pending (GetPending.request g) client_id listed laws
      (omega (arith, length-topic_path JobTopic.get_pending client_id)) f,
  topic_payload-fits json 156 140 JobTopic.start_next (StartNext.request s) client_id started laws
      (omega (arith, length-topic_path JobTopic.start_next client_id)) h,
  topic_payload_total json u client_id updated laws l k i,
)
