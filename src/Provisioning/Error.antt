-- ===== src/Provisioning/Error.antt =====
-- src/provisioning/error.rs: the errors of fleet provisioning.
use rustot.Prelude.{ℕ}
use rustot.Ota.Error.{MqttError}

-- `serde_json_core::de::Error` is opaque: a number stands for each of its values.
abbrev pub JsonError : Type 0
JsonError = ℕ

pub data Error : Type 0 where
  overflow invalid_payload invalid_state deserialize_cbor : Error
  mqtt : MqttError → Error
  deserialize_json : JsonError → Error
  response : ℕ → Error  -- u16
