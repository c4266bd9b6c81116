-- ===== src/Jobs/Subscribe/Packets.antt =====
-- src/jobs/subscribe.rs and src/jobs/unsubscribe.rs: the packets in which topics are sent.
use rustot.Prelude.{
  ℕ, ◌+◌, ◌/◌, ◌≤◌, ◌≡◌, List, arith, length, Str, map, [], ◌∷◌, Outcome, ap, refl,
}
use rustot.Deps.{Deps, MapLaws}
use rustot.Mqtt.{Mqtt, QoS, on_mqtt, each, chunks, given, subscribe_all}
use rustot.Mqtt.Chunks.{concat, Sized, concat-chunks, length-chunks, chunks-Sized}
use rustot.Ota.Error.{JobError}
use rustot.Jobs.Topics.{topic_path, job_topic, Topic}
use rustot.Jobs.Subscribe.{Subscribe, send}
use rustot.Jobs.Subscribe.Total.{Made, topics_total}

length-map : {A B : Type 0} (f : A → B) (xs : List A) → length (map f xs) ≡ length xs
length-map f [] = refl
length-map f (x ∷ xs) = omega (arith, length-map f xs)

abbrev paths_of : Str → Subscribe → List (Str × QoS)
paths_of client_id s = map (λ (r : Topic × QoS). (topic_path (job_topic r.0) client_id, r.1)) s

-- A subscription that was put together by `topic` is sent, where the client's name has at most 128
-- bytes, in as few packets as five topics to each allow. The packets hold the text of each topic, in
-- order, none of them is empty or has more than five, and they are sent one after the other until one
-- of them fails.
pub send-packets :
    {d : Deps} (mqtt : Mqtt d) (capacity : ℕ) (s : Subscribe) (w : d.World)
    → MapLaws d
    → length mqtt.client_id ≤ 128
    → Made capacity s
    → (packets : List (List (Str × QoS))) × (send mqtt s w
        ≡ each (λ t. on_mqtt JobError.mqtt (mqtt.subscribe t)) packets w)
      × (concat packets
          ≡ map (λ (r : Topic × QoS). (topic_path (job_topic r.0) mqtt.client_id, r.1)) s)
      × (length packets ≡ (length s + 4) / 5)
      × Sized packets
unfolding send subscribe_all
send-packets {d} mqtt capacity s w laws l m =
    let paths = paths_of mqtt.client_id s in
    (
      chunks 5 paths,
      ap (λ (r : Outcome JobError (List (Str × QoS))). given r (subscribe_all JobError.mqtt mqtt) w)
          (topics_total d mqtt.client_id capacity s laws l m),
      concat-chunks paths,
      omega (arith, length-chunks paths, length-map _ s),
      chunks-Sized paths,
    )
