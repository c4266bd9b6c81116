-- ===== src/Jobs/Topics/Reading.antt =====
-- src/jobs/subscribe.rs: the text of a topic, read back.
use rustot.Prelude.{◌≡◌, ap, ◌∙◌, false, some, refl, Str, codes}
use rustot.Prelude.Text.{has, splitn, splitn-append}
use rustot.Mqtt.Pieces.{things_pieces}
use rustot.Jobs.Topics.{Topic, topic_path, job_topic, read_topic, tail, read_kind, read_pieces}

-- No piece of the text but the separators has a slash.
abbrev pub job_of : Topic → Str
job_of (Topic.describe_accepted job_id) = job_id
job_of (Topic.describe_rejected job_id) = job_id
job_of (Topic.update_accepted job_id) = job_id
job_of (Topic.update_rejected job_id) = job_id
job_of _ = codes ""

-- The text of a topic is read by its pieces behind `jobs/`.
read_tail :
    (t : Topic) (client_id : Str)
    → has b'/' client_id ≡ false
    → read_topic (topic_path (job_topic t) client_id)
      ≡ read_kind (splitn 4 b'/' (tail (job_topic t)))
unfolding read_topic topic_path read_pieces has
read_tail t client_id h =
    ap read_pieces (things_pieces client_id (codes "jobs") (tail (job_topic t)) h refl)

-- Where neither the client's name nor the job's has a slash, the text of a topic is read back as that
-- topic.
pub read_topic-topic_path :
    (t : Topic) (client_id : Str)
    → has b'/' client_id ≡ false
    → has b'/' (job_of t) ≡ false
    → read_topic (topic_path (job_topic t) client_id) ≡ some t
unfolding read_kind splitn tail job_topic
read_topic-topic_path Topic.notify client_id h k = read_tail Topic.notify client_id h
read_topic-topic_path Topic.notify_next client_id h k = read_tail Topic.notify_next client_id h
read_topic-topic_path Topic.get_accepted client_id h k = read_tail Topic.get_accepted client_id h
read_topic-topic_path Topic.get_rejected client_id h k = read_tail Topic.get_rejected client_id h
read_topic-topic_path Topic.start_next_accepted client_id h k =
    read_tail Topic.start_next_accepted client_id h
read_topic-topic_path Topic.start_next_rejected client_id h k =
    read_tail Topic.start_next_rejected client_id h
read_topic-topic_path (Topic.describe_accepted j) client_id h k =
    read_tail (Topic.describe_accepted j) client_id h
    ∙ ap read_kind (splitn-append 2 b'/' j (codes "get/accepted") k)
read_topic-topic_path (Topic.describe_rejected j) client_id h k =
    read_tail (Topic.describe_rejected j) client_id h
    ∙ ap read_kind (splitn-append 2 b'/' j (codes "get/rejected") k)
read_topic-topic_path (Topic.update_accepted j) client_id h k =
    read_tail (Topic.update_accepted j) client_id h
    ∙ ap read_kind (splitn-append 2 b'/' j (codes "update/accepted") k)
read_topic-topic_path (Topic.update_rejected j) client_id h k =
    read_tail (Topic.update_rejected j) client_id h
    ∙ ap read_kind (splitn-append 2 b'/' j (codes "update/rejected") k)
