-- ===== src/Tests/Subscriptions.antt =====
-- Topics of jobs, and subscriptions to them.
use rustot.Prelude.{ℕ, ◌≡◌, refl, some, [], ◌∷◌, ok, arith, codes}
use rustot.Prelude.Text.{has}
use rustot.Deps.Reference.{reference-MapLaws}
use rustot.Jobs.Topics.{Topic, topic_path, job_topic, read_topic}
use rustot.Jobs.Topics.Reading.{read_topic-topic_path}
use rustot.Jobs.Subscribe.{Subscribe, topic, topics}
use rustot.Jobs.Subscribe.Total.{Made, topics_total}
use rustot.Tests.Device.{device}

read_topic-topic_path_example :
    read_topic (topic_path (job_topic (Topic.update_accepted (codes "AFR_OTA-7"))) (codes "thing"))
    ≡ some (Topic.update_accepted (codes "AFR_OTA-7"))
unfolding has
read_topic-topic_path_example =
    read_topic-topic_path (Topic.update_accepted (codes "AFR_OTA-7")) (codes "thing") refl refl

abbrev next_job : Subscribe
next_job = (Topic.notify_next, 1) ∷ []

topics_total_example :
    topics device (codes "thing") next_job
    ≡ ok ((topic_path (job_topic Topic.notify_next) (codes "thing"), 1) ∷ [])
unfolding topic
topics_total_example =
    topics_total device (codes "thing") 2 next_job (reference-MapLaws ℕ) (omega arith)
      (Made.added [] next_job Topic.notify_next 1 Made.new refl)
