-- ===== src/Mqtt.antt =====
-- `mqttrust::Mqtt`, a trait of another crate through which every part sends, and the loops in which
-- src/jobs and src/provisioning send their topics.
pub mod Chunks
pub mod Pieces
use rustot.Prelude.{ℕ, zero, suc, List, [], ◌∷◌, Outcome, ok, err, panic, map_err, length, Str}
use rustot.Prelude.Stateful.{Exec, ◌>>◌, pure}
use rustot.Deps.{Deps}
use rustot.Ota.Error.{MqttError}

-- `mqttrust::QoS` is handed on: a number stands for each of its values.
abbrev pub QoS : Type 0
QoS = ℕ

abbrev pub at_most_once : QoS
at_most_once = 0

abbrev pub at_least_once : QoS
at_least_once = 1

pub record Mqtt (d : Deps) : Type 0 where
  pub client_id : Str
  pub publish : Str → List ℕ → QoS → Exec d.World MqttError (Unit {0})
  pub subscribe : List (Str × QoS) → Exec d.World MqttError (Unit {0})
  pub unsubscribe : List Str → Exec d.World MqttError (Unit {0})

-- `?` on a call of the client.
abbrev pub on_mqtt : {S E A : Type 0} → (MqttError → E) → Exec S MqttError A → S → Outcome E A × S
on_mqtt f m s = let r = m s in (map_err f r.0, r.1)

-- `?` on a value, before a call that needs it.
abbrev pub given : {S E A B : Type 0} → Outcome E A → (A → Exec S E B) → S → Outcome E B × S
given (ok a) f s = f a s
given (err e) f s = (err e, s)
given panic f s = (panic, s)

module _ {ℓ} {A : Type ℓ} where
  abbrev pub take : ℕ → List A → List A
  take zero xs = []
  take (suc n) [] = []
  take (suc n) (x ∷ xs) = x ∷ take n xs

  abbrev pub drop : ℕ → List A → List A
  drop zero xs = xs
  drop (suc n) [] = []
  drop (suc n) (x ∷ xs) = drop n xs

  unfoldable pub chunks_in : ℕ → ℕ → List A → List (List A)
  chunks_in zero n xs = []
  chunks_in (suc fuel) n [] = []
  chunks_in (suc fuel) n (x ∷ xs) = take n (x ∷ xs) ∷ chunks_in fuel n (drop n (x ∷ xs))

  -- `slice::chunks`: no more pieces than elements.
  unfoldable pub chunks : ℕ → List A → List (List A)
  unfolding chunks_in
  chunks n xs = chunks_in (length xs) n xs

-- `for t in chunks { call(t)?; }`
unfoldable pub each : {S E A : Type 0} → (A → Exec S E (Unit {0})) → List A → Exec S E (Unit {0})
each call [] = pure tt
each call (x ∷ xs) = do call x; each call xs

module _ {d : Deps} {E : Type 0} (from : MqttError → E) (mqtt : Mqtt d) where
  -- `for t in topics.chunks(5) { mqtt.subscribe(t)?; }`
  unfoldable pub subscribe_all : List (Str × QoS) → Exec d.World E (Unit {0})
  subscribe_all topics = each (λ t. on_mqtt from (mqtt.subscribe t)) (chunks 5 topics)

  -- `for t in topics.chunks(5) { mqtt.unsubscribe(t)?; }`
  unfoldable pub unsubscribe_all : List Str → Exec d.World E (Unit {0})
  unsubscribe_all topics = each (λ t. on_mqtt from (mqtt.unsubscribe t)) (chunks 5 topics)
