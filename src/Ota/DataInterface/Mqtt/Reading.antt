-- ===== src/Ota/DataInterface/Mqtt/Reading.antt =====
-- src/ota/data_interface/mqtt.rs: the text of a stream's topic, read back.
use rustot.Prelude.{◌≡◌, ap, ◌∙◌, false, some, List, refl, ◌∷◌, [], Str, ◌++◌, codes}
use rustot.Prelude.Text.{has, splitn, splitn-append, splitn_last}
use rustot.Mqtt.Pieces.{things_pieces}
use rustot.Ota.DataInterface.Mqtt.Topics.{
  Encoding, Topic, encoding_text, read_encoding, stream_path, ota_topic, read_stream_topic,
  stream_tail, read_kind, read_pieces,
}

abbrev pub stream_of : Topic → Str
stream_of (Topic.stream_data e stream) = stream
stream_of (Topic.description e stream) = stream
stream_of (Topic.rejected e stream) = stream

read_encoding-encoding_text : (e : Encoding) → read_encoding (encoding_text e) ≡ some e
unfolding read_encoding encoding_text
read_encoding-encoding_text Encoding.cbor = refl
read_encoding-encoding_text Encoding.json = refl

has-encoding_text : (e : Encoding) → has b'/' (encoding_text e) ≡ false
unfolding has encoding_text
has-encoding_text Encoding.cbor = refl
has-encoding_text Encoding.json = refl

tail_pieces :
    (stream kind : Str) (e : Encoding)
    → has b'/' stream ≡ false
    → has b'/' kind ≡ false
    → splitn 4 b'/' (stream ++ b'/' ∷ (kind ++ b'/' ∷ encoding_text e))
      ≡ stream ∷ kind ∷ encoding_text e ∷ []
tail_pieces stream kind e h k =
    splitn-append 2 b'/' stream _ h
    ∙ ap (λ (l : List Str). stream ∷ l)
        (splitn-append 1 b'/' kind _ k
          ∙ ap (λ (l : List Str). kind ∷ l) (splitn_last 1 b'/' _ (has-encoding_text e)))

read_tail :
    (t : Topic) (client_id : Str)
    → has b'/' client_id ≡ false
    → read_stream_topic (stream_path (ota_topic t) client_id)
      ≡ read_kind (splitn 4 b'/' (stream_tail (ota_topic t)))
unfolding read_stream_topic stream_path read_pieces has
read_tail t client_id h =
    ap read_pieces (things_pieces client_id (codes "streams") (stream_tail (ota_topic t)) h refl)

-- Where neither the client's name nor the stream's has a slash, the text of a stream's topic is read
-- back as that topic, with its encoding.
pub read_stream_topic-stream_path :
    (t : Topic) (client_id : Str)
    → has b'/' client_id ≡ false
    → has b'/' (stream_of t) ≡ false
    → read_stream_topic (stream_path (ota_topic t) client_id) ≡ some t
unfolding read_kind stream_tail ota_topic has
read_stream_topic-stream_path (Topic.stream_data e s) client_id h k =
    read_tail (Topic.stream_data e s) client_id h
    ∙ ap read_kind (tail_pieces s (codes "data") e k refl)
    ∙ rw (read_encoding-encoding_text e)
read_stream_topic-stream_path (Topic.description e s) client_id h k =
    read_tail (Topic.description e s) client_id h
    ∙ ap read_kind (tail_pieces s (codes "description") e k refl)
    ∙ rw (read_encoding-encoding_text e)
read_stream_topic-stream_path (Topic.rejected e s) client_id h k =
    read_tail (Topic.rejected e s) client_id h
    ∙ ap read_kind (tail_pieces s (codes "rejected") e k refl)
    ∙ rw (read_encoding-encoding_text e)
