-- ===== src/Tests/Requests.antt =====
-- Requests to the job service.
use rustot.Prelude.{ℕ, ◌+◌, ◌/◌, ◌≡◌, refl, List, [], ◌∷◌, ok, err, arith, length, Str, codes, map}
use rustot.Deps.Reference.{reference-MapLaws}
use rustot.Mqtt.{Mqtt, QoS, each, on_mqtt, chunks, subscribe_all}
use rustot.Mqtt.Chunks.{concat, Sized}
use rustot.Jobs.Topics.{JobTopic, Topic, topic_path, job_topic, format}
use rustot.Jobs.DataTypes.{JobStatus}
use rustot.Jobs.Subscribe.{Subscribe, topic, topics, topic_paths, send}
use rustot.Jobs.Subscribe.Total.{Made}
use rustot.Jobs.Subscribe.Packets.{send-packets}
use rustot.Jobs.Describe
use rustot.Jobs.GetPending
use rustot.Jobs.StartNext
use rustot.Jobs.Update
use rustot.Jobs.Room.{requests_total}
use rustot.Ota.Error.{JobError, OtaError}
use rustot.Ota.ControlInterface.Mqtt.{RequestCnt, request_job, subscribe_next}
use rustot.Ota.ControlInterface.Mqtt.NextJob.{request_job-asks, request_job-unencoded}
use rustot.Tests.Device.{device}
use rustot.Tests.Client.{client, mqtt, json, text, strict, strict-JsonLaws}

-- Six topics, which are one more than a packet holds.
abbrev six : Subscribe
six =
    (Topic.notify, 1)
    ∷ (Topic.notify_next, 1)
    ∷ (Topic.get_accepted, 1)
    ∷ (Topic.get_rejected, 1)
    ∷ (Topic.start_next_accepted, 1)
    ∷ (Topic.start_next_rejected, 1)
    ∷ []

made : Made 8 six
unfolding topic
made =
    Made.added _ _ Topic.start_next_rejected 1
      (Made.added _ _ Topic.start_next_accepted 1
        (Made.added _ _ Topic.get_rejected 1
          (Made.added _ _ Topic.get_accepted 1
            (Made.added _ _ Topic.notify_next 1 (Made.added [] _ Topic.notify 1 Made.new refl) refl)
            refl)
          refl)
        refl)
      refl

send-packets_example :
    (packets : List (List (Str × QoS))) × (send mqtt six 0
      ≡ each (λ t. on_mqtt JobError.mqtt (mqtt.subscribe t)) packets 0)
    × (concat packets
        ≡ map (λ (r : Topic × QoS). (topic_path (job_topic r.0) (codes "thing"), r.1)) six)
    × (length packets ≡ (6 + 4) / 5)
    × Sized packets
send-packets_example = send-packets mqtt 8 six 0 (reference-MapLaws ℕ) (omega arith) made

requests_total_example :
    (Describe.topic_payload json Describe.new (codes "thing")
      ≡ ok (topic_path JobTopic.get_next (codes "thing"), 1 ∷ 2 ∷ []))
    × (GetPending.topic_payload json GetPending.new (codes "thing")
        ≡ ok (topic_path JobTopic.get_pending (codes "thing"), 1 ∷ 2 ∷ []))
    × (StartNext.topic_payload json StartNext.new (codes "thing")
        ≡ ok (topic_path JobTopic.start_next (codes "thing"), 1 ∷ 2 ∷ []))
    × (Update.topic_payload json (Update.blank (codes "AFR_OTA-7") JobStatus.failed) (codes "thing")
        ≡ ok (topic_path (JobTopic.update (codes "AFR_OTA-7")) (codes "thing"), 1 ∷ 2 ∷ []))
unfolding Describe.new Describe.topic_of Update.blank
requests_total_example =
    requests_total json (codes "thing") Describe.new GetPending.new StartNext.new
      (Update.blank (codes "AFR_OTA-7") JobStatus.failed) (1 ∷ 2 ∷ []) (1 ∷ 2 ∷ []) (1 ∷ 2 ∷ [])
      (1 ∷ 2 ∷ []) (reference-MapLaws ℕ) (omega arith) (omega arith) (omega arith) refl refl refl
      refl

-- The counter is the world.
abbrev cnt : RequestCnt device
cnt = record { get = λ w. w; set = λ n w. n }

-- The subscription adds 100 to the world, the counter and the message add 1 each.
request_job-asks_example : (request_job json mqtt cnt 0).1 ≡ 102
unfolding subscribe_next topic topics topic_paths send subscribe_all chunks each format job_topic
request_job-asks_example =
    request_job-asks json mqtt cnt 0 (1 ∷ 2 ∷ []) (reference-MapLaws ℕ) (omega arith) refl refl

abbrev long : Mqtt device
long = client (
    codes
      "aaaaaaaaaaaaaaaaaaaaaaaaaaaaaaaaaaaaaaaaaaaaaaaaaaaaaaaaaaaaaaaaaaaaaaaaaaaaaaaaaaaaaaaaaaaaaaaaaaaaaaaaaaaaaaaaaaaaaaaaa")

request_job-unencoded_example : request_job strict long cnt 0 ≡ (err OtaError.encoding, 101)
unfolding subscribe_next topic topics topic_paths send subscribe_all chunks each format job_topic
request_job-unencoded_example =
    request_job-unencoded strict long cnt 0 text (reference-MapLaws ℕ) strict-JsonLaws (omega arith)
      (omega arith) refl
