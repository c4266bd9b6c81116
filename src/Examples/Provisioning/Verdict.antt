-- ===== src/Examples/Provisioning/Verdict.antt =====
-- examples/provisioning.rs: what the device gets, from the messages alone.
use rustot.Prelude.{
  ℕ, ◌≤◌, ◌≡◌, refl, sym, ◌∙◌, subst, Bool, true, false, Option, none, some, List, [], ◌∷◌, Outcome,
  ok, err, panic, Outcome-cases, inl, inr, length, arith, Str, Bool-cases,
}
use rustot.Prelude.Stateful.{◌>>◌}
use rustot.Deps.{Deps, MapLaws}
use rustot.Mqtt.{Mqtt, QoS, at_least_once}
use rustot.Ota.Encoding.{string_from}
use rustot.Provisioning.Topics.{
  PayloadFormat, Topic, format, from_str, check, topic_text, certificate_text, format_text,
}
use rustot.Provisioning.Topics.Prefix.{check-from_str}
use rustot.Provisioning.Messages.{Codec, decode, encode}
use rustot.Provisioning.Fleet
use rustot.Provisioning.Fleet.{FleetProvisioner}
use rustot.Provisioning.Fleet.Leaving.{drop_ok}
use rustot.Provisioning.Fleet.Sending.{register_thing-sends, format-fits, drop-initialize}
use rustot.Examples.Provisioning.{
  OwnedCredentials, Notification, Turn, parameters, expect, owned, answered, on_message, turn, run,
  provisioner, leave, dropped, expecting, provision_credentials,
}
use rustot.Examples.Provisioning.Answers.{
  Answer, Answer-cases, of_decoded, credit, answer_to, answer_of, verdict,
}

-- What one answer makes of a turn.
unfoldable turn_of : Answer → Option OwnedCredentials → Outcome (Unit {0}) Turn
turn_of (Answer.credited c) held = ok (Turn.again (some c))
turn_of Answer.configured held = ok (Turn.break_ok held)
turn_of Answer.refused held = ok Turn.break_err
turn_of Answer.broken held = panic
turn_of Answer.ignored held = ok (Turn.again held)

-- A client that sends what it is given, and an encoder that has room for every token.
pub record Sends {d : Deps} (mqtt : Mqtt d) (codec : Codec) : Type 0 where
  pub published :
      (topic : Str) (payload : List ℕ) (q : QoS) (w : d.World)
      → (mqtt.publish topic payload q w).0 ≡ ok tt
  pub subscribed : (topics : List (Str × QoS)) (w : d.World) → (mqtt.subscribe topics w).0 ≡ ok tt
  pub unsubscribed : (topics : List Str) (w : d.World) → (mqtt.unsubscribe topics w).0 ≡ ok tt
  pub encoded :
      (f : PayloadFormat) (token : Str)
      → length token ≤ 512
      → (payload : List ℕ) × (encode codec f
            (record { certificate_ownership_token = token; parameters = some parameters })
          ≡ ok payload)

length-keys_request :
    (f : PayloadFormat) → length (topic_text (Topic.create_keys_and_certificate f)) ≤ 29
unfolding topic_text certificate_text format_text
length-keys_request PayloadFormat.cbor = omega arith
length-keys_request PayloadFormat.json = omega arith

module _ {d : Deps} (mqtt : Mqtt d) (codec : Codec) (laws : MapLaws d)
    (sends : Sends mqtt codec) where
  begin_lem :
      (p : FleetProvisioner) (w : d.World)
      → ((Fleet.begin mqtt (p, w)).0 ≡ ok tt) × ((Fleet.begin mqtt (p, w)).1.0 ≡ p)
  unfolding Fleet.begin format
  begin_lem p w =
      let topic = Topic.create_keys_and_certificate p.payload_format in
      ground (
        arith,
        format-fits d 29 topic laws,
        length-keys_request p.payload_format,
        sends.published (topic_text topic) [] at_least_once w,
      )

  register_thing_lem :
      (p : FleetProvisioner) (token : Str) (w : d.World)
      → p.ownership_token ≡ some token
      → length token ≤ 512
      → length p.template_name ≤ 26
      → let r = Fleet.register_thing mqtt codec (some parameters) (p, w) in
        (r.0 ≡ ok tt) × (r.1.0 ≡ record p { ownership_token = none })
  register_thing_lem p token w h l t =
      let (payload, e) = sends.encoded p.payload_format token l in
      let used = record p { ownership_token = none } in
      let sent =
        (register_thing-sends mqtt codec (some parameters) p used token payload w laws h refl
          e).0 in
      ground (
        arith,
        sent,
        t,
        sends.published (topic_text (Topic.register_thing p.template_name p.payload_format)) payload
            at_least_once w,
      )

  answered_lem :
      (t : Option Topic) (payload : List ℕ) (held : Option OwnedCredentials) (p : FleetProvisioner)
      (w : d.World)
      → length p.template_name ≤ 26
      → let r = Fleet.handle_topic mqtt codec t payload (p, w) in
        let u = answered mqtt codec held r.0 r.1 in
        (u.0 ≡ turn_of (answer_to codec mqtt.client_id t payload) held)
        × (u.1.0.template_name ≡ p.template_name)
  unfolding answered Fleet.handle_topic Fleet.refused Fleet.keys_accepted Fleet.csr_accepted
      Fleet.thing_accepted turn_of answer_to of_decoded credit string_from owned expect
  answered_lem none payload held p w h = (refl, refl)
  answered_lem (some (Topic.create_keys_and_certificate_accepted f)) payload held p w h =
      elim (Outcome-cases (decode codec.keys f payload)) [
        | inl (r, e) ↦
            let token = r.certificate_ownership_token in
            ground (
              arith,
              e,
              laws.fits_lem 512 token,
              register_thing_lem (record p { ownership_token = some token }) token w refl,
            )
        | inr (inl (x, e)) ↦ ground (arith, e)
        | inr (inr e) ↦ ground (arith, e)
      ]
  answered_lem (some (Topic.create_certificate_from_csr_accepted f)) payload held p w h =
      elim (Outcome-cases (decode codec.csr f payload)) [
        | inl (r, e) ↦
            let token = r.certificate_ownership_token in
            ground (
              arith,
              e,
              laws.fits_lem 512 token,
              register_thing_lem (record p { ownership_token = some token }) token w refl,
            )
        | inr (inl (x, e)) ↦ ground (arith, e)
        | inr (inr e) ↦ ground (arith, e)
      ]
  answered_lem (some _) payload held p w h = ground arith

  turn_lem :
      (n : Notification) (held : Option OwnedCredentials) (p : FleetProvisioner) (w : d.World)
      → length p.template_name ≤ 26
      → let u = turn mqtt codec n held (p, w) in
        (u.0 ≡ turn_of (answer_of codec mqtt.client_id n) held)
        × (u.1.0.template_name ≡ p.template_name)
  unfolding turn answer_of turn_of on_message expect Fleet.handle_message
  turn_lem (Notification.publish topic payload) held p w h = elim (Bool-cases (check topic)) [
    | inl e ↦ rw e (answered_lem (from_str topic) payload held p w h)
    | inr e ↦ rw (e, check-from_str topic e) (refl, refl)
  ]
  turn_lem Notification.suback held p w h = ground (arith, begin_lem p w)
  turn_lem Notification.other held p w h = (refl, refl)

  run_lem :
      (ns : List Notification) (held : Option OwnedCredentials) (p : FleetProvisioner) (w : d.World)
      → length p.template_name ≤ 26
      → (run mqtt codec ns held (p, w)).0 ≡ verdict codec mqtt.client_id ns held
  unfolding run verdict turn_of
  run_lem [] held p w h = refl
  run_lem (n ∷ ns) held p w h =
      let (e, k) = turn_lem n held p w h in
      let s = (turn mqtt codec n held (p, w)).1 in
      let rest = λ (c : Option OwnedCredentials).
        run_lem ns c s.0 s.1 (subst (λ (t : Str). length t ≤ 26) (sym k) h) in
      elim (Answer-cases (answer_of codec mqtt.client_id n)) [
        | inl (c, a) ↦ ground (arith, e, a, rest (some c))
        | inr (inl a) ↦ ground (arith, e, a)
        | inr (inr (inl a)) ↦ ground (arith, e, a)
        | inr (inr (inr (inl a))) ↦ ground (arith, e, a)
        | inr (inr (inr (inr a))) ↦ ground (arith, e, a, rest held)
      ]

  start_lem :
      (ns : List Notification) (p : FleetProvisioner) (w : d.World)
      → length p.template_name ≤ 26
      → ((expecting (Fleet.initialize mqtt) >> run mqtt codec ns none) (p, w)).0
        ≡ verdict codec mqtt.client_id ns none
  unfolding expect
  start_lem ns p w h =
      rw ((drop-initialize mqtt p w laws (omega (arith, h))).0, sends.subscribed _ w)
        (run_lem ns none p _ h)

  leave_lem :
      (r : Outcome (Unit {0}) (Option OwnedCredentials)) (s : FleetProvisioner × d.World)
      → (leave mqtt codec r s).0 ≡ r
  unfolding leave dropped expect
  leave_lem (ok (some c)) s = rw (drop_ok mqtt sends.unsubscribed s.0 s.1)
  leave_lem (ok none) s = refl
  leave_lem (err e) s = rw (drop_ok mqtt sends.unsubscribed s.0 s.1)
  leave_lem panic s = refl

  -- Where the client subscribes, sends and gives up whatever it is given and the request of a registration is
  -- encoded, what the function returns depends only on the messages that come in: it is the credentials
  -- of the last answer with some before the device's configuration comes in, an error where an answer
  -- refuses or cannot be read before that, or where the configuration comes before any credentials, and
  -- nothing as long as none of this came in. A token of more than 512 bytes and the registration of
  -- another thing are a panic.
  pub provision_credentials_lem :
      (cbor : Bool) (ns : List Notification) (w : d.World)
      → (provision_credentials mqtt codec cbor ns w).0 ≡ verdict codec mqtt.client_id ns none
  unfolding provision_credentials expect provisioner Fleet.new Fleet.new_json
  provision_credentials_lem true ns w =
      leave_lem _ _ ∙ start_lem ns (provisioner true) w (omega arith)
  provision_credentials_lem false ns w =
      leave_lem _ _ ∙ start_lem ns (provisioner false) w (omega arith)
