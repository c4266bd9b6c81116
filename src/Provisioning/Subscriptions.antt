-- ===== src/Provisioning/Subscriptions.antt =====
-- src/provisioning/topics.rs: the topics that are subscribed to and given up.
use rustot.Prelude.{
  ℕ, Bool, true, false, not, ◌&&◌, List, [], ◌∷◌, ◌++◌, Outcome, ok, any, length, ltb,
  if◌then◌else◌, Str, str_eq,
}
use rustot.Prelude.Fallible.{◌>>=◌}
use rustot.Prelude.Stateful.{Exec, pure}
use rustot.Deps.{Deps}
use rustot.Mqtt.{Mqtt, QoS, given, subscribe_all, unsubscribe_all}
use rustot.Provisioning.Error.{Error}
use rustot.Provisioning.Topics.{Topic, Direction, PayloadFormat, direction, format}

abbrev is_incoming : Direction → Bool
is_incoming Direction.incoming = true
is_incoming Direction.outgoing = false

unfoldable pub format_eq : PayloadFormat → PayloadFormat → Bool
format_eq PayloadFormat.cbor PayloadFormat.cbor = true
format_eq PayloadFormat.json PayloadFormat.json = true
format_eq _ _ = false

-- `==` on topics.
unfoldable pub topic_eq : Topic → Topic → Bool
unfolding format_eq
topic_eq (Topic.register_thing s f) (Topic.register_thing t g) = str_eq s t && format_eq f g
topic_eq (Topic.register_thing_accepted s f) (Topic.register_thing_accepted t g) =
    str_eq s t && format_eq f g
topic_eq (Topic.register_thing_rejected s f) (Topic.register_thing_rejected t g) =
    str_eq s t && format_eq f g
topic_eq (Topic.create_keys_and_certificate f) (Topic.create_keys_and_certificate g) = format_eq f g
topic_eq (Topic.create_certificate_from_csr f) (Topic.create_certificate_from_csr g) = format_eq f g
topic_eq (Topic.create_keys_and_certificate_accepted f)
      (Topic.create_keys_and_certificate_accepted g) =
    format_eq f g
topic_eq (Topic.create_keys_and_certificate_rejected f)
      (Topic.create_keys_and_certificate_rejected g) =
    format_eq f g
topic_eq (Topic.create_certificate_from_csr_accepted f)
      (Topic.create_certificate_from_csr_accepted g) =
    format_eq f g
topic_eq (Topic.create_certificate_from_csr_rejected f)
      (Topic.create_certificate_from_csr_rejected g) =
    format_eq f g
topic_eq _ _ = false

-- `Subscribe<N>` and `Unsubscribe<N>`: their topics, the first one first.
abbrev pub Subscribe : Type 0
Subscribe = List (Topic × QoS)

abbrev pub Unsubscribe : Type 0
Unsubscribe = List Topic

-- `Subscribe::topic`: an outgoing topic and one that is there already are not added, one for which there
-- is no room is dropped.
unfoldable pub add_topic : ℕ → Topic → QoS → Subscribe → Subscribe
unfolding direction topic_eq
add_topic capacity t qos topics =
    if not (is_incoming (direction t))
    then topics
    else if any (λ (r : Topic × QoS). topic_eq r.0 t) topics
    then topics
    else if ltb (length topics) capacity
    then topics ++ (t, qos) ∷ []
    else topics

-- `Subscribe::topics`
unfoldable pub subscribe_topics : Deps → Subscribe → Outcome Error (List (Str × QoS))
subscribe_topics d [] = ok []
subscribe_topics d ((t, qos) ∷ rest) = do
  path ← format d 128 t
  paths ← subscribe_topics d rest
  ok ((path, qos) ∷ paths)

-- `Subscribe::send`
unfoldable pub send_subscribe : {d : Deps} → Mqtt d → Subscribe → Exec d.World Error (Unit {0})
send_subscribe mqtt [] = pure tt
send_subscribe {d} mqtt (t ∷ rest) =
    given (subscribe_topics d (t ∷ rest)) (subscribe_all Error.mqtt mqtt)

-- `Unsubscribe::topic`
unfoldable pub drop_topic : ℕ → Topic → Unsubscribe → Unsubscribe
unfolding direction topic_eq
drop_topic capacity t topics =
    if not (is_incoming (direction t))
    then topics
    else if any (λ u. topic_eq u t) topics
    then topics
    else if ltb (length topics) capacity
    then topics ++ t ∷ []
    else topics

-- `Unsubscribe::topics`
unfoldable pub unsubscribe_topics : Deps → Unsubscribe → Outcome Error (List Str)
unsubscribe_topics d [] = ok []
unsubscribe_topics d (t ∷ rest) = do
  path ← format d 256 t
  paths ← unsubscribe_topics d rest
  ok (path ∷ paths)

-- `Unsubscribe::send`
unfoldable pub send_unsubscribe : {d : Deps} → Mqtt d → Unsubscribe → Exec d.World Error (Unit {0})
send_unsubscribe mqtt [] = pure tt
send_unsubscribe {d} mqtt (t ∷ rest) =
    given (unsubscribe_topics d (t ∷ rest)) (unsubscribe_all Error.mqtt mqtt)
