-- ===== src/Tests/Provisioning.antt =====
-- A device that is provisioned.
use rustot.Prelude.{ℕ, ◌≡◌, refl, none, some, List, [], ◌∷◌, ◌++◌, ok, err, arith, codes}
use rustot.Prelude.Text.{has, splitn}
use rustot.Deps.Reference.{reference-MapLaws}
use rustot.Ota.Encoding.{string_from}
use rustot.Provisioning.Error.{Error}
use rustot.Provisioning.Topics.{PayloadFormat, Topic, topic_text, format, from_str, direction}
use rustot.Provisioning.Topics.Reading.{from_str-topic_text, csr_answers_unread}
use rustot.Mqtt.{subscribe_all, each, chunks}
use rustot.Provisioning.Subscriptions.{send_subscribe, add_topic, subscribe_topics}
use rustot.Provisioning.Messages.{decode, encode}
use rustot.Provisioning.Fleet
use rustot.Provisioning.Fleet.{FleetProvisioner}
use rustot.Provisioning.Fleet.Token.{Call, Runs, held, perform, Runs-held}
use rustot.Provisioning.Fleet.Sending.{register_thing-sends, drop-initialize}
use rustot.Tests.Client.{mqtt, codec}

from_str-topic_text_example :
    from_str (topic_text (Topic.register_thing_accepted (codes "fleet") PayloadFormat.json))
    ≡ some (Topic.register_thing_accepted (codes "fleet") PayloadFormat.json)
unfolding has direction
from_str-topic_text_example =
    from_str-topic_text (Topic.register_thing_accepted (codes "fleet") PayloadFormat.json) refl refl
      refl

csr_answers_unread_example :
    let request = topic_text (Topic.create_certificate_from_csr PayloadFormat.cbor) in
    (from_str (request ++ codes "/accepted")
      ≡ some (Topic.create_certificate_from_csr_accepted PayloadFormat.cbor))
    × (from_str (request ++ codes "/rejected")
        ≡ some (Topic.create_certificate_from_csr_rejected PayloadFormat.cbor))
    × (topic_text (Topic.create_certificate_from_csr_accepted PayloadFormat.cbor) ≡ request)
    × (topic_text (Topic.create_certificate_from_csr_rejected PayloadFormat.cbor) ≡ request)
    × (from_str request ≡ none)
csr_answers_unread_example = csr_answers_unread PayloadFormat.cbor

abbrev fleet : FleetProvisioner
fleet = Fleet.new (codes "fleet")

abbrev credited : FleetProvisioner
credited = record fleet { ownership_token = some (7 ∷ []) }

abbrev accepted : List ℕ
accepted = codes "$aws/certificates/create/cbor/accepted"

abbrev calls : List Call
calls = Call.initialize ∷ Call.begin ∷ Call.handle_message accepted (7 ∷ []) ∷ []

-- Subscribed, asked and credited.
runs : Runs mqtt codec (fleet, 0) calls (credited, 101)
unfolding perform Fleet.new Fleet.handle_message from_str splitn decode string_from Fleet.begin
    format Fleet.initialize send_subscribe add_topic subscribe_topics subscribe_all each chunks
runs =
    Runs.call _ _ Call.initialize _ (λ e. cc)
      (Runs.call _ _ Call.begin _ (λ e. cc)
        (Runs.call _ _ (Call.handle_message accepted (7 ∷ [])) [] (λ e. cc) (Runs.stop _)))

Runs-held_example :
    (credited.ownership_token ≡ held codec none calls)
    × (credited.template_name ≡ fleet.template_name)
    × (credited.payload_format ≡ fleet.payload_format)
unfolding Fleet.new
Runs-held_example = Runs-held mqtt codec (fleet, 0) (credited, 101) calls runs

register_thing-sends_example :
    (Fleet.register_thing mqtt codec none (credited, 5) ≡ (ok tt, (fleet, 6)))
    × (Fleet.register_thing mqtt codec none (fleet, 5) ≡ (err Error.invalid_state, (fleet, 5)))
unfolding Fleet.new encode
register_thing-sends_example =
    register_thing-sends mqtt codec none credited fleet (7 ∷ []) (7 ∷ []) 5 (reference-MapLaws ℕ)
      refl refl refl

drop-initialize_example :
    (Fleet.initialize mqtt (fleet, 0) ≡ (ok tt, (fleet, 100)))
    × ((Fleet.drop mqtt fleet 0).1 ≡ 10000)
unfolding Fleet.new
drop-initialize_example = drop-initialize mqtt fleet 0 (reference-MapLaws ℕ) (omega arith)
