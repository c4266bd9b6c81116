-- ===== src/Tests/Client.antt =====
-- A client whose calls succeed and count, and encoders and decoders that write and read little.
use rustot.Prelude.{
  ℕ, ◌+◌, refl, Option, none, some, List, [], ◌∷◌, ◌++◌, ok, arith, inr, leb, length, length-append,
  if◌then◌else◌, Str, codes,
}
use rustot.Mqtt.{Mqtt}
use rustot.Jobs.Requests.{Json, JsonLaws, Request}
use rustot.Ota.Encoding.Cbor.{Cbor, GetStreamResponse}
use rustot.Provisioning.Messages.{Codec, Reader}
use rustot.Tests.Device.{device}

abbrev pub client : Str → Mqtt device
client id = record {
  client_id = id;
  publish = λ path payload qos w. (ok tt, w + 1);
  subscribe = λ topics w. (ok tt, w + 100);
  unsubscribe = λ topics w. (ok tt, w + 10000);
}

abbrev pub mqtt : Mqtt device
mqtt = client (codes "thing")

abbrev pub json : Json device
json = record { to_vec = λ n r. some (1 ∷ 2 ∷ []) }

-- A text that is as long as that of a request with nothing but a token.
abbrev token_text : Option Str → Str
token_text none = codes "{}"
token_text (some token) = codes "{'clientToken':'" ++ (token ++ codes "'}")

abbrev pub text : Request device → Str
text (Request.describe r) = token_text r.client_token
text _ = codes "{}"

abbrev pub strict : Json device
strict = record { to_vec = λ n r. if leb (length (text r)) n then some (text r) else none }

pub strict-JsonLaws : JsonLaws device strict text
strict-JsonLaws = record {
  to_vec_lem = λ n r. refl;
  length-token = λ token. omega (arith, length-append token (codes "'}"));
}

-- The first number is the block's.
abbrev read_response : List ℕ → Option GetStreamResponse
read_response [] = none
read_response (id ∷ bytes) = some (record {
  client_token = none;
  file_id = 0;
  block_size = 256;
  block_id = id;
  block_payload = bytes;
})

abbrev pub cbor : Cbor device
cbor = record { to_slice = λ n r. some (3 ∷ []); from_mut_slice = read_response }

abbrev reader : {A : Type 0} → (List ℕ → A) → Reader A
reader f = record { from_cbor = λ bytes. some (f bytes); from_json = λ bytes. inr (f bytes) }

-- Answers whose payload is the token.
abbrev pub codec : Codec
codec = record {
  keys = reader (λ bytes. record {
    certificate_id = [];
    certificate_pem = [];
    private_key = [];
    certificate_ownership_token = bytes;
  });
  csr = reader (λ bytes. record {
    certificate_id = [];
    certificate_pem = [];
    certificate_ownership_token = bytes;
  });
  thing = reader (λ bytes. record { device_configuration = []; thing_name = bytes });
  error = reader (λ bytes. record { status_code = 400; error_code = []; error_message = bytes });
  to_cbor = λ n r. some r.certificate_ownership_token;
  to_json = λ n r. some r.certificate_ownership_token;
}
