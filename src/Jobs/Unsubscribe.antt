-- ===== src/Jobs/Unsubscribe.antt =====
-- src/jobs/unsubscribe.rs: the topics that are given up, and their texts.
use rustot.Prelude.{
  ℕ, List, [], ◌∷◌, ◌++◌, Outcome, ok, assert, any, length, ltb, leb, if◌then◌else◌, Str,
}
use rustot.Prelude.Fallible.{◌>>=◌, ◌>>◌}
use rustot.Prelude.Stateful.{Exec}
use rustot.Deps.{Deps}
use rustot.Mqtt.{Mqtt, given, unsubscribe_all}
use rustot.Ota.Error.{JobError}
use rustot.Jobs.Topics.{Topic, job_topic, format}
use rustot.Jobs.Requests.{max_thing_name_len}
use rustot.Jobs.Subscribe.{topic_eq, fits_job}

-- `Unsubscribe<N>`: its topics, the first one first.
abbrev pub Unsubscribe : Type 0
Unsubscribe = List Topic

unfoldable pub topic : ℕ → Topic → Unsubscribe → Outcome JobError Unsubscribe
unfolding fits_job topic_eq
topic capacity t topics = do
  assert (fits_job t)
  ok (
      if any (λ u. topic_eq u t) topics
      then topics
      else if ltb (length topics) capacity
      then topics ++ t ∷ []
      else topics)

unfoldable pub topic_paths : Deps → Str → Unsubscribe → Outcome JobError (List Str)
topic_paths d client_id [] = ok []
topic_paths d client_id (t ∷ rest) = do
  path ← format d 256 (job_topic t) client_id
  paths ← topic_paths d client_id rest
  ok (path ∷ paths)

-- `Unsubscribe::topics`
unfoldable pub topics : Deps → Str → Unsubscribe → Outcome JobError (List Str)
unfolding topic_paths
topics d client_id unsubscribe = do
  assert (leb (length client_id) max_thing_name_len)
  topic_paths d client_id unsubscribe

-- `Unsubscribe::send`
unfoldable pub send : {d : Deps} → Mqtt d → Unsubscribe → Exec d.World JobError (Unit {0})
send {d} mqtt u = given (topics d mqtt.client_id u) (unsubscribe_all JobError.mqtt mqtt)
