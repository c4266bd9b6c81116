-- ===== src/Provisioning/Messages.antt =====
-- src/provisioning/data_types.rs: the messages of fleet provisioning, and the crates that encode and
-- decode them.
use rustot.Prelude.{ℕ, Option, List, Str, Outcome, ok, err, ok_or, ◌⊎◌, inl, inr}
use rustot.Provisioning.Error.{Error, JsonError}
use rustot.Provisioning.Topics.{PayloadFormat}

-- `FnvIndexMap<&str, &str, P>` is handed on.
abbrev pub Parameters : Type 0
Parameters = List (Str × Str)

pub record ErrorResponse : Type 0 where
  pub status_code : ℕ  -- u16
  pub error_code : Str
  pub error_message : Str

pub record CreateCertificateFromCsrRequest : Type 0 where
  pub certificate_signing_request : Str

pub record CreateCertificateFromCsrResponse : Type 0 where
  pub certificate_ownership_token : Str
  pub certificate_id : Str
  pub certificate_pem : Str

pub record CreateKeysAndCertificateResponse : Type 0 where
  pub certificate_id : Str
  pub certificate_pem : Str
  pub private_key : Str
  pub certificate_ownership_token : Str

pub record RegisterThingRequest : Type 0 where
  pub certificate_ownership_token : Str
  pub parameters : Option Parameters

pub record RegisterThingResponse : Type 0 where
  pub device_configuration : Parameters
  pub thing_name : Str

-- `serde_cbor::de::from_mut_slice` and `serde_json_core::from_slice` at a type.
pub record Reader (A : Type 0) : Type 0 where
  pub from_cbor : List ℕ → Option A
  pub from_json : List ℕ → JsonError ⊎ A

-- These at the types of the answers, and the serialization of a request into a buffer of some size.
pub record Codec : Type 0 where
  pub keys : Reader CreateKeysAndCertificateResponse
  pub csr : Reader CreateCertificateFromCsrResponse
  pub thing : Reader RegisterThingResponse
  pub error : Reader ErrorResponse
  pub to_cbor : ℕ → RegisterThingRequest → Option (List ℕ)
  pub to_json : ℕ → RegisterThingRequest → Option (List ℕ)

json_result : {A : Type 0} → JsonError ⊎ A → Outcome Error A
json_result (inl e) = err (Error.deserialize_json e)
json_result (inr a) = ok a

-- `match format { ... }` on an answer, with `?`.
unfoldable pub decode : {A : Type 0} → Reader A → PayloadFormat → List ℕ → Outcome Error A
unfolding json_result
decode reader PayloadFormat.cbor payload = ok_or Error.deserialize_cbor (reader.from_cbor payload)
decode reader PayloadFormat.json payload = json_result (reader.from_json payload)

-- `match self.payload_format { ... }` on the request, with `?`.
unfoldable pub encode : Codec → PayloadFormat → RegisterThingRequest → Outcome Error (List ℕ)
encode codec PayloadFormat.cbor request = ok_or Error.deserialize_cbor (codec.to_cbor 1024 request)
encode codec PayloadFormat.json request = ok_or Error.overflow (codec.to_json 1024 request)
