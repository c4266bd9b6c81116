-- ===== src/Examples/Ota/Dispatch.antt =====
-- examples/ota.rs: the messages for which the agent asked, and what is made of them.
use mathlib.Core.List.{append_assoc}
use rustot.Prelude.{ℕ, ◌≡◌, refl, ap, ◌∙◌, false, none, List, ◌++◌, ok, ok_or, Str, codes}
use rustot.Prelude.Fallible.{◌>>=◌}
use rustot.Prelude.Text.{has}
use rustot.Deps.{Deps}
use rustot.Mqtt.Pieces.{things_pieces}
use rustot.Jobs.Topics.{JobTopic, Topic, topic_path, tail, job_topic, read_topic, read_pieces}
use rustot.Jobs.Topics.Reading.{read_topic-topic_path}
use rustot.Ota.DataInterface.Mqtt.Topics
use rustot.Ota.DataInterface.Mqtt.Topics.{
  Encoding, OtaTopic, ota_topic, stream_path, stream_tail, read_stream_topic,
}
use rustot.Ota.DataInterface.Mqtt.Reading.{read_stream_topic-stream_path}
use rustot.Examples.Ota.{OtaUpdate, Reader, job_of, handle_ota, job_or_stream, stream_of}

-- The topic of the answer to a request for the next job.
next_accepted :
    (client_id : Str)
    → topic_path JobTopic.get_next client_id ++ codes "/accepted"
      ≡ topic_path (job_topic (Topic.describe_accepted (codes "$next"))) client_id
unfolding topic_path tail job_topic
next_accepted client_id = simp append_assoc

-- A stream's topic is no topic of the job service.
stream_no_job :
    (t : OtaTopic) (client_id : Str)
    → has b'/' client_id ≡ false
    → read_topic (stream_path t client_id) ≡ none
unfolding read_topic read_pieces stream_path has
stream_no_job t client_id h =
    ap read_pieces (things_pieces client_id (codes "streams") (stream_tail t) h refl)

module _ {d : Deps} (reader : Reader d) (client_id stream : Str) (e : Encoding)
    (payload : List ℕ) where
  -- Where neither the client's name nor the stream's has a slash, the answer to the agent's request for
  -- the next job and the notification of a next job are both taken for the job that they hold, each
  -- decoded as its own kind of message, and a message on the data topic of a stream, in either encoding,
  -- for a block of a file.
  pub handle_ota-dispatches :
      has b'/' client_id ≡ false
      → has b'/' stream ≡ false
      → let answer = topic_path JobTopic.get_next client_id ++ codes "/accepted" in
        let changed = topic_path JobTopic.notify_next client_id in
        let bytes = stream_path (OtaTopic.stream_data e stream) client_id in
        (handle_ota reader answer payload
          ≡ (ok_or tt (reader.described payload) >>= λ r. job_of r.execution))
        × (handle_ota reader changed payload
            ≡ (ok_or tt (reader.next_changed payload) >>= λ r. job_of r.execution))
        × (handle_ota reader bytes payload ≡ ok (OtaUpdate.block payload))
  unfolding handle_ota job_or_stream stream_of job_topic ota_topic has
  handle_ota-dispatches h k =
      let answer =
        ap read_topic (next_accepted client_id)
        ∙ read_topic-topic_path (Topic.describe_accepted (codes "$next")) client_id h refl in
      let changed = read_topic-topic_path Topic.notify_next client_id h refl in
      let bytes = stream_no_job (OtaTopic.stream_data e stream) client_id h in
      let stream =
        read_stream_topic-stream_path (Topics.Topic.stream_data e stream) client_id h k in
      (rw answer, rw changed, rw (bytes, stream))
