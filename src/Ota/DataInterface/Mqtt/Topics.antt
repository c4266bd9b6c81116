-- ===== src/Ota/DataInterface/Mqtt/Topics.antt =====
-- src/ota/data_interface/mqtt.rs: the topics of a stream, as texts and read back.
use rustot.Prelude.{
  ℕ, ◌&&◌, Option, none, some, List, [], ◌∷◌, ◌++◌, Outcome, ok, err, if◌then◌else◌, Str, str_eq,
  codes,
}
use rustot.Prelude.Text.{splitn}
use rustot.Deps.{Deps}
use rustot.Ota.Error.{OtaError}

pub data Encoding : Type 0 where
  cbor json : Encoding

-- `Display for Encoding`
unfoldable pub encoding_text : Encoding → Str
encoding_text Encoding.cbor = codes "cbor"
encoding_text Encoding.json = codes "json"

-- `FromStr for Encoding`
unfoldable pub read_encoding : Str → Option Encoding
read_encoding s =
    if str_eq s (codes "cbor")
    then some Encoding.cbor
    else if str_eq s (codes "json")
    then some Encoding.json
    else none

pub data Topic : Type 0 where
  stream_data description rejected : Encoding → Str → Topic

with_stream : (Encoding → Str → Topic) → Str → Option Encoding → Option Topic
with_stream topic stream none = none
with_stream topic stream (some e) = some (topic e stream)

-- The pieces from the fifth on: a stream, a kind and an encoding.
unfoldable pub read_kind : List Str → Option Topic
unfolding with_stream read_encoding
read_kind (stream ∷ kind ∷ enc ∷ []) =
    if str_eq kind (codes "data")
    then with_stream Topic.stream_data stream (read_encoding enc)
    else if str_eq kind (codes "description")
    then with_stream Topic.description stream (read_encoding enc)
    else if str_eq kind (codes "rejected")
    then with_stream Topic.rejected stream (read_encoding enc)
    else none
read_kind _ = none

unfoldable pub read_pieces : List Str → Option Topic
unfolding read_kind
read_pieces (a ∷ b ∷ _ ∷ c ∷ kind) =
    if str_eq a (codes "$aws") && str_eq b (codes "things") && str_eq c (codes "streams")
    then read_kind kind
    else none
read_pieces _ = none

-- `Topic::from_str`
unfoldable pub read_stream_topic : Str → Option Topic
unfolding read_pieces
read_stream_topic s = read_pieces (splitn 8 b'/' s)

pub data OtaTopic : Type 0 where
  stream_data description rejected get : Encoding → Str → OtaTopic

-- `From<&Topic> for OtaTopic`
unfoldable pub ota_topic : Topic → OtaTopic
ota_topic (Topic.stream_data e stream) = OtaTopic.stream_data e stream
ota_topic (Topic.description e stream) = OtaTopic.description e stream
ota_topic (Topic.rejected e stream) = OtaTopic.rejected e stream

-- What follows `streams/`.
unfoldable pub stream_tail : OtaTopic → Str
unfolding encoding_text
stream_tail (OtaTopic.stream_data e stream) =
    stream ++ b'/' ∷ (codes "data" ++ b'/' ∷ encoding_text e)
stream_tail (OtaTopic.description e stream) =
    stream ++ b'/' ∷ (codes "description" ++ b'/' ∷ encoding_text e)
stream_tail (OtaTopic.rejected e stream) =
    stream ++ b'/' ∷ (codes "rejected" ++ b'/' ∷ encoding_text e)
stream_tail (OtaTopic.get e stream) = stream ++ b'/' ∷ (codes "get" ++ b'/' ∷ encoding_text e)

-- The text that `format` writes.
unfoldable pub stream_path : OtaTopic → Str → Str
unfolding stream_tail
stream_path topic client_id =
    codes "$aws"
    ++ b'/'
      ∷ (codes "things"
          ++ b'/' ∷ (client_id ++ b'/' ∷ (codes "streams" ++ b'/' ∷ stream_tail topic)))

-- `OtaTopic::format::<L>`: writing past the capacity is an overflow.
unfoldable pub format_stream : Deps → ℕ → OtaTopic → Str → Outcome OtaError Str
unfolding stream_path
format_stream d capacity topic client_id =
    if d.fits capacity (stream_path topic client_id)
    then ok (stream_path topic client_id)
    else err OtaError.overflow
