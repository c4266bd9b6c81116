-- ===== src/Provisioning/Fleet/Token.antt =====
-- src/provisioning/mod.rs: the token of a provisioner along any sequence of calls.
use rustot.Prelude.{
  ℕ, ◌≡◌, ◌≢◌, refl, ◌∙◌, ap, Option, none, some, List, [], ◌∷◌, Outcome, ok, panic, map_ok, arith,
  Str,
}
use rustot.Deps.{Deps}
use rustot.Mqtt.{Mqtt}
use rustot.Ota.Encoding.{string_from}
use rustot.Provisioning.Error.{Error}
use rustot.Provisioning.Topics.{Topic, from_str}
use rustot.Provisioning.Messages.{Parameters, Codec, decode}
use rustot.Provisioning.Fleet
use rustot.Provisioning.Fleet.{FleetProvisioner, OnFleet}

pub data Call : Type 0 where
  initialize begin : Call
  register_thing : Option Parameters → Call
  handle_message : Str → List ℕ → Call

-- The specification: an answer with credentials brings a token, a registration uses up the token.
unfoldable pub token_in : Codec → Option Topic → List ℕ → Option Str
token_in codec (some (Topic.create_keys_and_certificate_accepted f)) payload =
    elim (decode codec.keys f payload) [
      | ok response ↦ some response.certificate_ownership_token
      | _ ↦ none
    ]
token_in codec (some (Topic.create_certificate_from_csr_accepted f)) payload =
    elim (decode codec.csr f payload) [
      | ok response ↦ some response.certificate_ownership_token
      | _ ↦ none
    ]
token_in codec _ payload = none

unfoldable pub replaced : Option Str → Option Str → Option Str
replaced token none = token
replaced token (some new) = some new

unfoldable pub step : Codec → Option Str → Call → Option Str
unfolding token_in replaced
step codec token (Call.register_thing parameters) = none
step codec token (Call.handle_message topic payload) =
    replaced token (token_in codec (from_str topic) payload)
step codec token _ = token

unfoldable pub held : Codec → Option Str → List Call → Option Str
held codec token [] = token
held codec token (call ∷ calls) = held codec (step codec token call) calls

module _ {d : Deps} (mqtt : Mqtt d) (codec : Codec) where
  abbrev answered :
      {A : Type 0}
      → Outcome Error A × (FleetProvisioner × d.World)
      → Outcome Error (Unit {0}) × (FleetProvisioner × d.World)
  answered r = (map_ok (λ a. tt) r.0, r.1)

  unfoldable pub perform : Call → OnFleet d.World (Unit {0})
  perform Call.initialize s = Fleet.initialize mqtt s
  perform Call.begin s = Fleet.begin mqtt s
  perform (Call.register_thing parameters) s = Fleet.register_thing mqtt codec parameters s
  perform (Call.handle_message topic payload) s =
      answered (Fleet.handle_message mqtt codec topic payload s)

  -- Calls one after the other, whether they succeed or fail. A panic is not survived.
  pub data Runs : FleetProvisioner × d.World → List Call → FleetProvisioner × d.World → Type 0 where
    stop : (s : FleetProvisioner × d.World) → Runs s [] s
    call :
        (s t : FleetProvisioner × d.World) (c : Call) (cs : List Call)
        → (perform c s).0 ≢ panic
        → Runs (perform c s).1 cs t
        → Runs s (c ∷ cs) t

  -- Neither the template nor the format changes.
  abbrev Kept : FleetProvisioner → FleetProvisioner → Type 0
  Kept p q = (q.template_name ≡ p.template_name) × (q.payload_format ≡ p.payload_format)

  handle_topic_held :
      (t : Option Topic) (payload : List ℕ) (s : FleetProvisioner × d.World)
      → (Fleet.handle_topic mqtt codec t payload s).0 ≢ panic
      → let q = (Fleet.handle_topic mqtt codec t payload s).1.0 in
        (q.ownership_token ≡ replaced s.0.ownership_token (token_in codec t payload)) × Kept s.0 q
  unfolding Fleet.handle_topic token_in replaced string_from
  handle_topic_held none payload s n = (refl, (refl, refl))
  handle_topic_held (some (Topic.create_keys_and_certificate_accepted f)) payload s n = ground arith
  handle_topic_held (some (Topic.create_certificate_from_csr_accepted f)) payload s n = ground arith
  handle_topic_held (some _) payload s n = ground arith

  perform_held :
      (c : Call) (s : FleetProvisioner × d.World)
      → (perform c s).0 ≢ panic
      → let q = (perform c s).1.0 in
        (q.ownership_token ≡ step codec s.0.ownership_token c) × Kept s.0 q
  unfolding perform step Fleet.handle_message Fleet.initialize Fleet.begin Fleet.register_thing
  perform_held Call.initialize s n = ground arith
  perform_held Call.begin s n = ground arith
  perform_held (Call.register_thing parameters) s n = ground arith
  perform_held (Call.handle_message topic payload) s n =
      handle_topic_held (from_str topic) payload s (λ e. n (ap (map_ok (λ a. tt)) e))

  -- Along any sequence of calls that none of them ends by a panic, whether they succeed or fail, the
  -- provisioner holds the token that the specification says: the one of the last answer with
  -- credentials since the last registration that was tried, or the one from the beginning where neither
  -- happened. The template and the format stay.
  pub Runs-held :
      (s t : FleetProvisioner × d.World) (cs : List Call)
      → Runs s cs t
      → (t.0.ownership_token ≡ held codec s.0.ownership_token cs)
        × (t.0.template_name ≡ s.0.template_name)
        × (t.0.payload_format ≡ s.0.payload_format)
  unfolding held
  Runs-held s t cs (stop _) = (refl, refl, refl)
  Runs-held s t cs (call _ _ c rest n more) =
      let (token, (template, format)) = perform_held c s n in
      let (token', template', format') = Runs-held (perform c s).1 t rest more in
      (
        token' ∙ ap (λ (o : Option Str). held codec o rest) token,
        template' ∙ template,
        format' ∙ format,
      )
