-- ===== src/Provisioning/Fleet/Sending.antt =====
-- src/provisioning/mod.rs: what a provisioner sends, and the room for its topics.
use rustot.Prelude.{
  ℕ, ◌+◌, ◌≤◌, ◌<◌, ◌≡◌, Option, none, some, List, [], ◌∷◌, ◌++◌, ok, err, map_err, arith, leb,
  if◌then◌else◌, length, length-append, Str, codes, map,
}
use rustot.Deps.{Deps, MapLaws}
use rustot.Mqtt.{Mqtt, at_least_once, each, chunks, subscribe_all, unsubscribe_all}
use rustot.Provisioning.Error.{Error}
use rustot.Provisioning.Topics.{
  PayloadFormat, Topic, format_text, template_text, certificate_text, topic_text, format,
}
use rustot.Provisioning.Subscriptions.{
  add_topic, subscribe_topics, send_subscribe, drop_topic, unsubscribe_topics, send_unsubscribe,
}
use rustot.Provisioning.Messages.{Parameters, Codec, encode}
use rustot.Provisioning.Fleet
use rustot.Provisioning.Fleet.{FleetProvisioner}

length-format_text : (f : PayloadFormat) → length (format_text f) ≡ 4
unfolding format_text
length-format_text PayloadFormat.cbor = omega arith
length-format_text PayloadFormat.json = omega arith

length-template_text :
    (template rest : Str)
    → length (template_text template rest) ≡ 39 + length template + length rest
unfolding template_text
length-template_text template rest =
    omega (arith, length-append template (b'/' ∷ (codes "provision" ++ b'/' ∷ rest)))

length-register_text :
    (template : Str) (f : PayloadFormat)
    → length (topic_text (Topic.register_thing template f)) ≡ 43 + length template
unfolding topic_text
length-register_text template f =
    omega (arith, length-template_text template (format_text f), length-format_text f)

pub format-fits :
    (d : Deps) (n : ℕ) (t : Topic)
    → MapLaws d
    → length (topic_text t) ≤ n
    → format d n t ≡ ok (topic_text t)
unfolding format
format-fits d n t laws h = ground (arith, laws.fits_lem n (topic_text t))

format-overflow :
    (d : Deps) (n : ℕ) (t : Topic)
    → MapLaws d
    → n < length (topic_text t)
    → format d n t ≡ err Error.overflow
unfolding format
format-overflow d n t laws h = ground (arith, laws.fits_lem n (topic_text t))

module _ {d : Deps} (mqtt : Mqtt d) (codec : Codec) (parameters : Option Parameters) where
  -- With a token, where the template's name has at most 26 bytes and the request is encoded, a
  -- registration sends the token and the parameters to the registration topic of the template. With a
  -- name of more than 26 bytes it fails as an overflow and nothing is sent. Without a token it fails as
  -- a call in the wrong state and nothing is sent. In each case no token is held afterwards.
  pub register_thing-sends :
      (p q : FleetProvisioner) (token : Str) (payload : List ℕ) (w : d.World)
      → MapLaws d
      → p.ownership_token ≡ some token
      → q.ownership_token ≡ none
      → encode codec p.payload_format
          (record { certificate_ownership_token = token; parameters = parameters })
        ≡ ok payload
      → let used = record p { ownership_token = none } in
        let topic = topic_text (Topic.register_thing p.template_name p.payload_format) in
        let sent = mqtt.publish topic payload at_least_once w in
        (Fleet.register_thing mqtt codec parameters (p, w) ≡ (
          if leb (length p.template_name) 26
          then (map_err Error.mqtt sent.0, (used, sent.1))
          else (err Error.overflow, (used, w))))
        × (Fleet.register_thing mqtt codec parameters (q, w) ≡ (err Error.invalid_state, (q, w)))
  unfolding Fleet.register_thing
  register_thing-sends p q token payload w laws h k e =
      let t = Topic.register_thing p.template_name p.payload_format in
      let long = length-register_text p.template_name p.payload_format in
      (
        ground (arith, h, e, long, format-fits d 69 t laws, format-overflow d 69 t laws),
        ground (arith, k),
      )

length-keys_text :
    (f : PayloadFormat)
    → (length (topic_text (Topic.create_keys_and_certificate_accepted f)) ≤ 128)
      × (length (topic_text (Topic.create_keys_and_certificate_rejected f)) ≤ 128)
unfolding topic_text certificate_text format_text
length-keys_text PayloadFormat.cbor = omega arith
length-keys_text PayloadFormat.json = omega arith

length-answer_text :
    (template : Str) (f : PayloadFormat)
    → (length (topic_text (Topic.register_thing_accepted template f)) ≡ 52 + length template)
      × (length (topic_text (Topic.register_thing_rejected template f)) ≡ 52 + length template)
unfolding topic_text
length-answer_text template f = omega (
  arith,
  length-template_text template (format_text f ++ b'/' ∷ codes "accepted"),
  length-template_text template (format_text f ++ b'/' ∷ codes "rejected"),
  length-append (format_text f) (b'/' ∷ codes "accepted"),
  length-append (format_text f) (b'/' ∷ codes "rejected"),
  length-format_text f,
)

module _ {d : Deps} (mqtt : Mqtt d) (p : FleetProvisioner) where
  -- The topics of the answers.
  abbrev answers : List Topic
  answers =
      Topic.create_keys_and_certificate_accepted p.payload_format
      ∷ Topic.create_keys_and_certificate_rejected p.payload_format
      ∷ Topic.register_thing_accepted p.template_name p.payload_format
      ∷ Topic.register_thing_rejected p.template_name p.payload_format
      ∷ []

  -- Where the template's name has at most 76 bytes, a provisioner begins by one subscription to the four
  -- topics of the answers, in one packet, and when it is dropped it gives up these four, also in one
  -- packet and whether that succeeds or fails.
  pub drop-initialize :
      (w : d.World)
      → MapLaws d
      → length p.template_name ≤ 76
      → let s = mqtt.subscribe (map (λ (t : Topic). (topic_text t, at_least_once)) answers) w in
        let u = mqtt.unsubscribe (map topic_text answers) w in
        (Fleet.initialize mqtt (p, w) ≡ (map_err Error.mqtt s.0, (p, s.1)))
        × ((Fleet.drop mqtt p w).1 ≡ u.1)
  unfolding Fleet.initialize Fleet.drop add_topic drop_topic send_subscribe send_unsubscribe
      subscribe_topics unsubscribe_topics subscribe_all unsubscribe_all each chunks
  drop-initialize w laws l =
      let keys = length-keys_text p.payload_format in
      let thing = length-answer_text p.template_name p.payload_format in
      let fits = λ (n : ℕ) (t : Topic) (h : length (topic_text t) ≤ n). format-fits d n t laws h in
      let a = Topic.create_keys_and_certificate_accepted p.payload_format in
      let b = Topic.create_keys_and_certificate_rejected p.payload_format in
      let e = Topic.register_thing_accepted p.template_name p.payload_format in
      let f = Topic.register_thing_rejected p.template_name p.payload_format in
      (
        ground (
          arith,
          fits 128 a keys.0,
          fits 128 b keys.1,
          fits 128 e (omega (arith, thing)),
          fits 128 f (omega (arith, thing)),
        ),
        ground (
          arith,
          fits 256 a (omega (arith, keys)),
          fits 256 b (omega (arith, keys)),
          fits 256 e (omega (arith, thing)),
          fits 256 f (omega (arith, thing)),
        ),
      )
