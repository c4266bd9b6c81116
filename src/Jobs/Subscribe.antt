-- ===== src/Jobs/Subscribe.antt =====
-- src/jobs/subscribe.rs: the topics of a subscription, and the texts that are subscribed to.
pub mod Total
pub mod Packets
use rustot.Prelude.{
  ℕ, suc, ◌+◌, ◌<◌, Bool, true, false, Option, none, some, List, [], ◌∷◌, ◌++◌, Outcome, ok, err,
  panic, assert, any, length, ltb, leb, if◌then◌else◌, Str, str_eq, codes,
}
use rustot.Prelude.Fallible.{◌>>=◌, ◌>>◌}
use rustot.Deps.{Deps}
use rustot.Prelude.Stateful.{Exec}
use rustot.Mqtt.{Mqtt, QoS, given, subscribe_all}
use rustot.Ota.Error.{JobError}
use rustot.Jobs.Requests.{max_thing_name_len, max_job_id_len}
use rustot.Jobs.Topics.{Topic, job_topic, format}

-- `==` on topics.
unfoldable pub topic_eq : Topic → Topic → Bool
topic_eq Topic.notify Topic.notify = true
topic_eq Topic.notify_next Topic.notify_next = true
topic_eq Topic.get_accepted Topic.get_accepted = true
topic_eq Topic.get_rejected Topic.get_rejected = true
topic_eq Topic.start_next_accepted Topic.start_next_accepted = true
topic_eq Topic.start_next_rejected Topic.start_next_rejected = true
topic_eq (Topic.describe_accepted s) (Topic.describe_accepted t) = str_eq s t
topic_eq (Topic.describe_rejected s) (Topic.describe_rejected t) = str_eq s t
topic_eq (Topic.update_accepted s) (Topic.update_accepted t) = str_eq s t
topic_eq (Topic.update_rejected s) (Topic.update_rejected t) = str_eq s t
topic_eq _ _ = false

-- The test that is asserted of a topic with a job.
unfoldable pub fits_job : Topic → Bool
fits_job (Topic.describe_accepted job_id) = leb (length job_id) max_job_id_len
fits_job (Topic.describe_rejected job_id) = leb (length job_id) max_job_id_len
fits_job (Topic.update_accepted job_id) = leb (length job_id) max_job_id_len
fits_job (Topic.update_rejected job_id) = leb (length job_id) max_job_id_len
fits_job _ = true

-- `Subscribe<N>`: its topics, the first one first.
abbrev pub Subscribe : Type 0
Subscribe = List (Topic × QoS)

-- `Subscribe::topic`: one that is there already is not added again, one for which there is no room is
-- dropped.
unfoldable pub topic : ℕ → Topic → QoS → Subscribe → Outcome JobError Subscribe
unfolding fits_job topic_eq
topic capacity t qos topics = do
  assert (fits_job t)
  ok (
      if any (λ (r : Topic × QoS). topic_eq r.0 t) topics
      then topics
      else if ltb (length topics) capacity
      then topics ++ (t, qos) ∷ []
      else topics)

unwrap : {E F A : Type 0} → Outcome E A → Outcome F A
unwrap (ok a) = ok a
unwrap (err e) = panic
unwrap panic = panic

-- The texts of the topics, each made in a string of 256 bytes.
unfoldable pub topic_paths : Deps → Str → Subscribe → Outcome JobError (List (Str × QoS))
unfolding unwrap
topic_paths d client_id [] = ok []
topic_paths d client_id ((t, qos) ∷ rest) = do
  path ← unwrap (format d 256 (job_topic t) client_id)
  paths ← topic_paths d client_id rest
  ok ((path, qos) ∷ paths)

-- `Subscribe::topics`
unfoldable pub topics : Deps → Str → Subscribe → Outcome JobError (List (Str × QoS))
unfolding topic_paths
topics d client_id subscribe = do
  assert (leb (length client_id) max_thing_name_len)
  topic_paths d client_id subscribe

-- `Subscribe::send`
unfoldable pub send : {d : Deps} → Mqtt d → Subscribe → Exec d.World JobError (Unit {0})
send {d} mqtt s = given (topics d mqtt.client_id s) (subscribe_all JobError.mqtt mqtt)
