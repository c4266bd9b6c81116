-- ===== src/Jobs/Topics.antt =====
-- src/jobs/mod.rs: `JobTopic` and its text. src/jobs/subscribe.rs: `Topic`, which is read back from a text.
pub mod Reading
use rustot.Prelude.{
  ℕ, Bool, true, false, ◌&&◌, Option, none, some, List, [], ◌∷◌, ◌++◌, Outcome, ok, err,
  if◌then◌else◌, Str, str_eq, codes,
}
use rustot.Prelude.Text.{splitn}
use rustot.Deps.{Deps}
use rustot.Ota.Error.{JobError}

pub data JobTopic : Type 0 where
  get_next get_pending start_next : JobTopic
  get update : Str → JobTopic
  notify notify_next get_accepted get_rejected start_next_accepted start_next_rejected : JobTopic
  describe_accepted describe_rejected update_accepted update_rejected : Str → JobTopic

-- What follows `jobs/`.
unfoldable pub tail : JobTopic → Str
tail JobTopic.get_next = codes "$next/get"
tail JobTopic.get_pending = codes "get"
tail JobTopic.start_next = codes "start-next"
tail (JobTopic.get job_id) = job_id ++ codes "/get"
tail (JobTopic.update job_id) = job_id ++ codes "/update"
tail JobTopic.notify = codes "notify"
tail JobTopic.notify_next = codes "notify-next"
tail JobTopic.get_accepted = codes "get/accepted"
tail JobTopic.get_rejected = codes "get/rejected"
tail JobTopic.start_next_accepted = codes "start-next/accepted"
tail JobTopic.start_next_rejected = codes "start-next/rejected"
tail (JobTopic.describe_accepted job_id) = job_id ++ codes "/get/accepted"
tail (JobTopic.describe_rejected job_id) = job_id ++ codes "/get/rejected"
tail (JobTopic.update_accepted job_id) = job_id ++ codes "/update/accepted"
tail (JobTopic.update_rejected job_id) = job_id ++ codes "/update/rejected"

-- The text that `format` writes.
unfoldable pub topic_path : JobTopic → Str → Str
unfolding tail
topic_path topic client_id =
    codes "$aws"
    ++ b'/' ∷ (codes "things" ++ b'/' ∷ (client_id ++ b'/' ∷ (codes "jobs" ++ b'/' ∷ tail topic)))

-- `JobTopic::format::<L>`: writing past the capacity is an overflow.
unfoldable pub format : Deps → ℕ → JobTopic → Str → Outcome JobError Str
unfolding topic_path
format d capacity topic client_id =
    if d.fits capacity (topic_path topic client_id)
    then ok (topic_path topic client_id)
    else err JobError.overflow

pub data Topic : Type 0 where
  notify notify_next get_accepted get_rejected start_next_accepted start_next_rejected : Topic
  describe_accepted describe_rejected update_accepted update_rejected : Str → Topic

-- `From<&Topic> for JobTopic`
unfoldable pub job_topic : Topic → JobTopic
job_topic Topic.notify = JobTopic.notify
job_topic Topic.notify_next = JobTopic.notify_next
job_topic Topic.get_accepted = JobTopic.get_accepted
job_topic Topic.get_rejected = JobTopic.get_rejected
job_topic Topic.start_next_accepted = JobTopic.start_next_accepted
job_topic Topic.start_next_rejected = JobTopic.start_next_rejected
job_topic (Topic.describe_accepted job_id) = JobTopic.describe_accepted job_id
job_topic (Topic.describe_rejected job_id) = JobTopic.describe_rejected job_id
job_topic (Topic.update_accepted job_id) = JobTopic.update_accepted job_id
job_topic (Topic.update_rejected job_id) = JobTopic.update_rejected job_id

-- The pieces from the fifth on, which tell the topic. Their number decides between the rows.
unfoldable pub read_kind : List Str → Option Topic
read_kind (a ∷ []) =
    if str_eq a (codes "notify-next")
    then some Topic.notify_next
    else if str_eq a (codes "notify")
    then some Topic.notify
    else none
read_kind (a ∷ b ∷ []) =
    if str_eq a (codes "get") && str_eq b (codes "accepted")
    then some Topic.get_accepted
    else if str_eq a (codes "get") && str_eq b (codes "rejected")
    then some Topic.get_rejected
    else if str_eq a (codes "start-next") && str_eq b (codes "accepted")
    then some Topic.start_next_accepted
    else if str_eq a (codes "start-next") && str_eq b (codes "rejected")
    then some Topic.start_next_rejected
    else none
read_kind (a ∷ b ∷ c ∷ []) =
    if str_eq b (codes "update") && str_eq c (codes "accepted")
    then some (Topic.update_accepted a)
    else if str_eq b (codes "update") && str_eq c (codes "rejected")
    then some (Topic.update_rejected a)
    else if str_eq b (codes "get") && str_eq c (codes "accepted")
    then some (Topic.describe_accepted a)
    else if str_eq b (codes "get") && str_eq c (codes "rejected")
    then some (Topic.describe_rejected a)
    else none
read_kind _ = none

unfoldable pub read_pieces : List Str → Option Topic
unfolding read_kind
read_pieces (a ∷ b ∷ _ ∷ c ∷ kind) =
    if str_eq a (codes "$aws") && str_eq b (codes "things") && str_eq c (codes "jobs")
    then read_kind kind
    else none
read_pieces _ = none

-- `Topic::from_str`
unfoldable pub read_topic : Str → Option Topic
unfolding read_pieces
read_topic s = read_pieces (splitn 8 b'/' s)
