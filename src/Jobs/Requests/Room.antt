-- ===== src/Jobs/Requests/Room.antt =====
-- src/jobs: the room for the topic of a request.
use rustot.Prelude.{ℕ, ◌≤◌, ◌≡◌, some, List, ok, arith, length, Str}
use rustot.Deps.{Deps, MapLaws}
use rustot.Jobs.Topics.{JobTopic, topic_path, format}
use rustot.Jobs.Requests.{Json, Request, topic_payload}

pub topic_payload-fits :
    {d : Deps} (json : Json d) (n m : ℕ) (t : JobTopic) (r : Request d) (client_id : Str)
    (payload : List ℕ)
    → MapLaws d
    → length (topic_path t client_id) ≤ n
    → json.to_vec m r ≡ some payload
    → topic_payload json n m t r client_id ≡ ok (topic_path t client_id, payload)
unfolding topic_payload format
topic_payload-fits json n m t r client_id payload laws h e =
    ground (arith, laws.fits_lem n (topic_path t client_id), e)
