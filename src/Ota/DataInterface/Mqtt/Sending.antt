-- ===== src/Ota/DataInterface/Mqtt/Sending.antt =====
-- src/ota/data_interface/mqtt.rs: what is sent for a file, and the room for the topics.
use rustot.Prelude.{
  ℕ, ◌+◌, ◌≤◌, ◌≡◌, some, List, [], ◌∷◌, ◌++◌, ok, arith, map_err, if◌then◌else◌, length,
  length-append, Str, codes,
}
use rustot.Deps.{Deps, MapLaws}
use rustot.Mqtt.{Mqtt, at_most_once, at_least_once}
use rustot.Ota.Config.{Config, u32}
use rustot.Ota.Error.{OtaError}
use rustot.Ota.Encoding.{FileContext}
use rustot.Ota.Encoding.Cbor.{Cbor}
use rustot.Ota.DataInterface.Mqtt.Topics.{
  Encoding, OtaTopic, encoding_text, stream_tail, stream_path, format_stream,
}
use rustot.Ota.DataInterface.Mqtt.{
  init_file_transfer, reset_requested, stream_request, request_file_block, data_topic, get_topic,
  cleanup,
}

length-encoding_text : (e : Encoding) → length (encoding_text e) ≡ 4
unfolding encoding_text
length-encoding_text Encoding.cbor = omega arith
length-encoding_text Encoding.json = omega arith

length-stream_tail :
    (stream kind : Str) (e : Encoding)
    → length (stream ++ b'/' ∷ (kind ++ b'/' ∷ encoding_text e)) ≡ length stream + length kind + 6
length-stream_tail stream kind e = omega (
  arith,
  length-append stream (b'/' ∷ (kind ++ b'/' ∷ encoding_text e)),
  length-append kind (b'/' ∷ encoding_text e),
  length-encoding_text e,
)

length-stream_path :
    (t : OtaTopic) (client_id : Str)
    → length (stream_path t client_id) ≡ 21 + length client_id + length (stream_tail t)
unfolding stream_path
length-stream_path t client_id =
    omega (arith, length-append client_id (b'/' ∷ (codes "streams" ++ b'/' ∷ stream_tail t)))

module _ {d : Deps} (mqtt : Mqtt d) (laws : MapLaws d) (f : FileContext d) where
  module _ (l : length mqtt.client_id ≤ 128) (k : length f.stream_name ≤ 64) where
    -- The topic of a request fits its string.
    pub get_topic_total :
        get_topic f mqtt.client_id
        ≡ ok (stream_path (OtaTopic.get Encoding.cbor f.stream_name) mqtt.client_id)
    unfolding get_topic format_stream stream_tail
    get_topic_total =
        let t = OtaTopic.get Encoding.cbor f.stream_name in
        ground (
          arith,
          laws.fits_lem 222 (stream_path t mqtt.client_id),
          length-stream_path t mqtt.client_id,
          length-stream_tail f.stream_name (codes "get") Encoding.cbor,
        )

    data_topic_total :
        data_topic f mqtt.client_id
        ≡ ok (stream_path (OtaTopic.stream_data Encoding.cbor f.stream_name) mqtt.client_id)
    unfolding data_topic format_stream stream_tail
    data_topic_total =
        let t = OtaTopic.stream_data Encoding.cbor f.stream_name in
        ground (
          arith,
          laws.fits_lem 256 (stream_path t mqtt.client_id),
          length-stream_path t mqtt.client_id,
          length-stream_tail f.stream_name (codes "data") Encoding.cbor,
        )

-- Where the client's name has at most 128 bytes and the stream's at most 64, a transfer begins with a
-- subscription to the data topic of the stream, to be served at least once. The cleanup gives up that
-- same topic if the settings say so and sends nothing otherwise. Neither changes the file, and each
-- ends as the client's call does.
pub cleanup-init_file_transfer :
    {d : Deps} (mqtt : Mqtt d) (config : Config) (f : FileContext d) (w : d.World)
    → MapLaws d
    → length mqtt.client_id ≤ 128
    → length f.stream_name ≤ 64
    → let path = stream_path (OtaTopic.stream_data Encoding.cbor f.stream_name) mqtt.client_id in
      let s = mqtt.subscribe ((path, at_least_once) ∷ []) w in
      let u = mqtt.unsubscribe (path ∷ []) w in
      (init_file_transfer mqtt (f, w) ≡ (map_err OtaError.mqtt s.0, (f, s.1)))
      × (cleanup mqtt config (f, w) ≡ (
          if config.unsubscribe_on_shutdown
          then (map_err OtaError.mqtt u.0, (f, u.1))
          else (ok tt, (f, w))))
unfolding init_file_transfer cleanup
cleanup-init_file_transfer mqtt config f w laws l k =
    let t = data_topic_total mqtt laws f l k in (ground (arith, t), ground (arith, t))

-- Where the client's name has at most 128 bytes, the stream's at most 64 and the request for the blocks
-- of the window is encoded to a payload, that payload goes to the request topic of the stream, at most
-- once. The number of requested blocks is set to the number of blocks to come in the window, and the
-- call ends as the client's does.
pub request_file_block-publishes :
    {d : Deps} (cbor : Cbor d) (mqtt : Mqtt d) (config : Config) (f : FileContext d) (w : d.World)
    (payload : List ℕ)
    → MapLaws d
    → length mqtt.client_id ≤ 128
    → length f.stream_name ≤ 64
    → cbor.to_slice 32 (stream_request config f) ≡ some payload
    → let path = stream_path (OtaTopic.get Encoding.cbor f.stream_name) mqtt.client_id in
      let p = mqtt.publish path payload at_most_once w in
      request_file_block cbor mqtt config (f, w) ≡ (
        map_err OtaError.mqtt p.0,
        (record f { request_block_remaining = u32 (d.ones f.bitmap) }, p.1),
      )
unfolding request_file_block stream_request reset_requested
request_file_block-publishes cbor mqtt config f w payload laws l k e =
    ground (arith, e, get_topic_total mqtt laws (reset_requested f) l k)
