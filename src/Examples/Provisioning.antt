-- ===== src/Examples/Provisioning.antt =====
-- examples/provisioning.rs: how a device gets its certificate.
pub mod Answers
pub mod Verdict
use rustot.Prelude.{
  ℕ, Bool, true, false, Option, none, some, map, List, [], ◌∷◌, Outcome, ok, err, panic, ok_or,
  map_ok, Str, codes, if◌then◌else◌,
}
use rustot.Prelude.Stateful.{Exec, continue, ◌>>=◌, ◌>>◌, pure, fail, lift}
use rustot.Deps.{Deps}
use rustot.Mqtt.{Mqtt}
use rustot.Provisioning.Error.{Error}
use rustot.Provisioning.Topics.{check}
use rustot.Provisioning.Messages.{Parameters, Codec}
use rustot.Provisioning.Fleet
use rustot.Provisioning.Fleet.{FleetProvisioner, Credentials, Response}

abbrev pub thing_name : Str
thing_name = codes "rustot-test"

pub record OwnedCredentials : Type 0 where
  pub certificate_id : Str
  pub certificate_pem : Str
  pub private_key : Option Str

-- `From<Credentials>`
unfoldable pub owned : Credentials → OwnedCredentials
owned c = record {
  certificate_id = c.certificate_id;
  certificate_pem = c.certificate_pem;
  private_key = c.private_key;
}

-- What `yield_event` returns: a message, the confirmation of a subscription, or anything else, an error
-- included.
pub data Notification : Type 0 where
  publish : Str → List ℕ → Notification
  suback other : Notification

-- How one turn of the loop ends, with the credentials that the device has so far.
pub data Turn : Type 0 where
  again : Option OwnedCredentials → Turn
  break_ok : Option OwnedCredentials → Turn
  break_err : Turn

-- `heapless::IndexMap::new` and one insertion.
abbrev pub parameters : Parameters
parameters = (codes "deviceId", thing_name) ∷ []

-- `expect`
unfoldable pub expect : {E A : Type 0} → Outcome E A → Outcome (Unit {0}) A
expect (ok a) = ok a
expect (err e) = panic
expect panic = panic

-- A call of the example on its provisioner. Its error is `()`.
abbrev pub OnDevice : Type 0 → Type 0 → Type 0
OnDevice W A = Exec (FleetProvisioner × W) (Unit {0}) A

abbrev pub expecting : {W E A : Type 0} → Exec (FleetProvisioner × W) E A → OnDevice W A
expecting m s = let r = m s in (expect r.0, r.1)

-- The provisioner, with the feature `cbor` or without.
unfoldable pub provisioner : Bool → FleetProvisioner
provisioner true = Fleet.new (codes "provision_template")
provisioner false = Fleet.new_json (codes "provision_template")

module _ {d : Deps} (mqtt : Mqtt d) (codec : Codec) where
  unfoldable pub answered : Option OwnedCredentials → Outcome Error Response → OnDevice d.World Turn
  unfolding owned expect
  answered held (ok (Response.credentials c)) = do
    expecting (Fleet.register_thing mqtt codec (some parameters))
    pure (Turn.again (some (owned c)))
  answered held (ok (Response.device_configuration config)) = pure (Turn.break_ok held)
  answered held (ok Response.nothing) = pure (Turn.again held)
  answered held (err e) = pure Turn.break_err
  answered held panic = lift panic

  unfoldable pub on_message : Str → List ℕ → Option OwnedCredentials → OnDevice d.World Turn
  unfolding answered
  on_message topic_name payload held s =
      let r = Fleet.handle_message mqtt codec topic_name payload s in answered held r.0 r.1

  unfoldable pub turn : Notification → Option OwnedCredentials → OnDevice d.World Turn
  unfolding on_message expect
  turn (Notification.publish topic_name payload) held =
      if check topic_name then on_message topic_name payload held else pure (Turn.again held)
  turn Notification.suback held = do expecting (Fleet.begin mqtt); pure (Turn.again held)
  turn Notification.other held = pure (Turn.again held)

  -- The loop, as far as these notifications go, and what is made of its result: `Ok(Some(c))` where the
  -- function returns `Ok(c)`, and `Ok(None)` where it still waits.
  unfoldable pub run :
      List Notification → Option OwnedCredentials → OnDevice d.World (Option OwnedCredentials)
  unfolding turn
  run [] held = pure none
  run (n ∷ ns) held = turn n held >>= elim [
    | Turn.again c ↦ run ns c
    | Turn.break_ok c ↦ lift (map_ok some (ok_or tt c))
    | Turn.break_err ↦ fail tt
  ]

  unfoldable pub dropped :
      Outcome (Unit {0}) (Option OwnedCredentials) → OnDevice d.World (Option OwnedCredentials)
  unfolding expect
  dropped r s = let q = Fleet.drop mqtt s.0 s.1 in continue (expect q.0) (λ _. lift r) (s.0, q.1)

  -- The provisioner is dropped when the function returns.
  unfoldable pub leave :
      Outcome (Unit {0}) (Option OwnedCredentials) → OnDevice d.World (Option OwnedCredentials)
  unfolding dropped
  leave (ok (some c)) = dropped (ok (some c))
  leave (err e) = dropped (err e)
  leave (ok none) = pure none
  leave panic = lift panic

  -- `provision_credentials`, less its network.
  unfoldable pub provision_credentials :
      Bool
      → List Notification
      → d.World
      → Outcome (Unit {0}) (Option OwnedCredentials) × (FleetProvisioner × d.World)
  unfolding provisioner run leave
  provision_credentials cbor ns w =
      let r = (expecting (Fleet.initialize mqtt) >> run ns none) (provisioner cbor, w) in
      leave r.0 r.1
