-- ===== src/Provisioning/Fleet.antt =====
-- src/provisioning/mod.rs: the provisioner, which holds the token of a new certificate until a thing is
-- registered with it.
pub mod Token
pub mod Sending
pub mod Leaving
use rustot.Prelude.{
  ℕ, Bool, true, false, Option, none, some, List, [], ◌∷◌, Outcome, ok, err, panic, assert, Str,
  str_eq,
}
use rustot.Prelude.Stateful.{Exec, continue, ◌>>=◌, ◌>>◌, pure, fail, lift, gets, modify}
use rustot.Deps.{Deps}
use rustot.Mqtt.{Mqtt, on_mqtt, at_least_once}
use rustot.Ota.Encoding.{string_from}
use rustot.Provisioning.Error.{Error}
use rustot.Provisioning.Topics.{PayloadFormat, Topic, format, from_str}
use rustot.Provisioning.Subscriptions.{add_topic, send_subscribe, drop_topic, send_unsubscribe}
use rustot.Provisioning.Messages.{
  Parameters, RegisterThingRequest, Codec, CreateKeysAndCertificateResponse,
  CreateCertificateFromCsrResponse, RegisterThingResponse, decode, encode,
}

pub record Credentials : Type 0 where
  pub certificate_id : Str
  pub certificate_pem : Str
  pub private_key : Option Str

pub data Response : Type 0 where
  credentials : Credentials → Response
  device_configuration : Parameters → Response
  nothing : Response

-- `FleetProvisioner`, less its reference to the client.
pub record FleetProvisioner : Type 0 where
  pub template_name : Str
  pub ownership_token : Option Str  -- String<512>
  pub payload_format : PayloadFormat

unfoldable pub new : Str → FleetProvisioner
new template = record {
  template_name = template;
  ownership_token = none;
  payload_format = PayloadFormat.cbor;
}

unfoldable pub new_json : Str → FleetProvisioner
new_json template = record {
  template_name = template;
  ownership_token = none;
  payload_format = PayloadFormat.json;
}

-- A call on the provisioner.
abbrev pub OnFleet : Type 0 → Type 0 → Type 0
OnFleet W A = Exec (FleetProvisioner × W) Error A

-- `.ok()`
unfoldable pub dropped : {W : Type 0} → Outcome Error (Unit {0}) × W → Outcome Error (Unit {0}) × W
dropped (ok a, w) = (ok tt, w)
dropped (err e, w) = (ok tt, w)
dropped (panic, w) = (panic, w)

module _ {W : Type 0} where
  abbrev pub on_client : {A : Type 0} → Exec W Error A → OnFleet W A
  on_client m s = let r = m s.1 in (r.0, (s.0, r.1))

  abbrev pub set_token : Option Str → OnFleet W (Unit {0})
  set_token token s = (ok tt, (record s.0 { ownership_token = token }, s.1))

  abbrev taken : Option Str → OnFleet W Str
  taken none s = (err Error.invalid_state, s)
  taken (some token) s = (ok token, (record s.0 { ownership_token = none }, s.1))

  -- `self.ownership_token.take().ok_or(Error::InvalidState)?`
  abbrev pub take_token : OnFleet W Str
  take_token s = taken s.0.ownership_token s

module _ {d : Deps} (mqtt : Mqtt d) where
  unfoldable pub initialize : OnFleet d.World (Unit {0})
  initialize = do
    p ← gets (λ s. s.0)
    let keys =
        add_topic 4 (Topic.create_keys_and_certificate_accepted p.payload_format) at_least_once []
    let both =
        add_topic 4 (Topic.create_keys_and_certificate_rejected p.payload_format) at_least_once keys
    let thing =
        add_topic 4 (Topic.register_thing_accepted p.template_name p.payload_format) at_least_once
          both
    let all =
        add_topic 4 (Topic.register_thing_rejected p.template_name p.payload_format) at_least_once
          thing
    on_client (send_subscribe mqtt all)

  unfoldable pub begin : OnFleet d.World (Unit {0})
  begin = do
    p ← gets (λ s. s.0)
    topic ← lift (format d 29 (Topic.create_keys_and_certificate p.payload_format))
    on_client (on_mqtt Error.mqtt (mqtt.publish topic [] at_least_once))

  unfoldable pub register_thing : Codec → Option Parameters → OnFleet d.World (Unit {0})
  register_thing codec parameters = do
    token ← take_token
    p ← gets (λ s. s.0)
    payload ← lift (
        encode codec p.payload_format
          (record { certificate_ownership_token = token; parameters = parameters }))
    topic ← lift (format d 69 (Topic.register_thing p.template_name p.payload_format))
    on_client (on_mqtt Error.mqtt (mqtt.publish topic payload at_least_once))

  unfoldable pub keys_accepted : Codec → PayloadFormat → List ℕ → OnFleet d.World Response
  keys_accepted codec f payload = do
    response ← lift (decode codec.keys f payload)
    token ← lift (string_from d 512 response.certificate_ownership_token)
    set_token (some token)
    pure (
        Response.credentials (record {
          certificate_id = response.certificate_id;
          certificate_pem = response.certificate_pem;
          private_key = some response.private_key;
        }))

  unfoldable pub csr_accepted : Codec → PayloadFormat → List ℕ → OnFleet d.World Response
  csr_accepted codec f payload = do
    response ← lift (decode codec.csr f payload)
    token ← lift (string_from d 512 response.certificate_ownership_token)
    set_token (some token)
    pure (
        Response.credentials (record {
          certificate_id = response.certificate_id;
          certificate_pem = response.certificate_pem;
          private_key = none;
        }))

  unfoldable pub thing_accepted : Codec → PayloadFormat → List ℕ → OnFleet d.World Response
  thing_accepted codec f payload = do
    response ← lift (decode codec.thing f payload)
    lift (assert (str_eq response.thing_name mqtt.client_id))
    pure (Response.device_configuration response.device_configuration)

  unfoldable pub refused : Codec → PayloadFormat → List ℕ → OnFleet d.World Response
  refused codec f payload = do
    response ← lift (decode codec.error f payload)
    fail (Error.response response.status_code)

  unfoldable pub handle_topic : Codec → Option Topic → List ℕ → OnFleet d.World Response
  unfolding keys_accepted csr_accepted thing_accepted refused
  handle_topic codec (some (Topic.create_keys_and_certificate_accepted f)) payload =
      keys_accepted codec f payload
  handle_topic codec (some (Topic.create_certificate_from_csr_accepted f)) payload =
      csr_accepted codec f payload
  handle_topic codec (some (Topic.register_thing_accepted _ f)) payload =
      thing_accepted codec f payload
  handle_topic codec (some (Topic.create_keys_and_certificate_rejected f)) payload =
      refused codec f payload
  handle_topic codec (some (Topic.create_certificate_from_csr_rejected f)) payload =
      refused codec f payload
  handle_topic codec (some (Topic.register_thing_rejected _ f)) payload = refused codec f payload
  handle_topic codec _ payload = pure Response.nothing

  unfoldable pub handle_message : Codec → Str → List ℕ → OnFleet d.World Response
  unfolding handle_topic
  handle_message codec topic_name payload = handle_topic codec (from_str topic_name) payload

  -- What `drop` gives up. An error is dropped too.
  unfoldable pub drop : FleetProvisioner → d.World → Outcome Error (Unit {0}) × d.World
  unfolding dropped
  drop p w =
      let keys = drop_topic 4 (Topic.create_keys_and_certificate_accepted p.payload_format) [] in
      let both = drop_topic 4 (Topic.create_keys_and_certificate_rejected p.payload_format) keys in
      let thing =
        drop_topic 4 (Topic.register_thing_accepted p.template_name p.payload_format) both in
      let all =
        drop_topic 4 (Topic.register_thing_rejected p.template_name p.payload_format) thing in
      dropped (send_unsubscribe mqtt all w)
