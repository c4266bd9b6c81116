-- ===== src/Ota/DataInterface/Mqtt.antt =====
-- src/ota/data_interface/mqtt.rs: the blocks of a file come over MQTT.
pub mod Topics
pub mod Reading
pub mod Sending
use rustot.Prelude.{
  ℕ, ◌+◌, Bool, true, false, Option, none, some, List, [], ◌∷◌, Outcome, ok, err, panic, ok_or,
  map_ok, Str, if◌then◌else◌,
}
use rustot.Prelude.Stateful.{Exec, ◌>>=◌, ◌>>◌, pure, gets, lift}
use rustot.Deps.{Deps}
use rustot.Mqtt.{Mqtt, on_mqtt, at_most_once, at_least_once}
use rustot.Jobs.Requests.{max_stream_id_len, max_thing_name_len}
use rustot.Ota.Config.{Config, u32}
use rustot.Ota.Error.{OtaError}
use rustot.Ota.Protocol.{Protocol}
use rustot.Ota.Encoding.{FileContext}
use rustot.Ota.Encoding.Cbor.{Cbor, GetStreamRequest, file_block}
use rustot.Ota.DataInterface.{OnFile, DataInterface, FileBlock}
use rustot.Ota.DataInterface.Mqtt.Topics.{Encoding, OtaTopic, format_stream}

module _ {d : Deps} where
  -- A call of the client, which leaves the file alone.
  abbrev pub on_client : {A : Type 0} → Exec d.World OtaError A → OnFile d A
  on_client m s = let r = m s.1 in (r.0, (s.0, r.1))

  unfoldable pub data_topic : FileContext d → Str → Outcome OtaError Str
  data_topic file_ctx =
      format_stream d 256 (OtaTopic.stream_data Encoding.cbor file_ctx.stream_name)

  unfoldable pub init_file_transfer : Mqtt d → OnFile d (Unit {0})
  unfolding data_topic
  init_file_transfer mqtt = do
    file_ctx ← gets (λ s. s.0)
    topic_path ← lift (data_topic file_ctx mqtt.client_id)
    on_client (on_mqtt OtaError.mqtt (mqtt.subscribe ((topic_path, at_least_once) ∷ [])))

  -- Resets the number of blocks that are requested.
  unfoldable pub reset_requested : FileContext d → FileContext d
  reset_requested f = record f { request_block_remaining = u32 (d.ones f.bitmap) }

  unfoldable pub stream_request : Config → FileContext d → GetStreamRequest d
  stream_request config f = record {
    client_token = none;
    stream_version = none;
    file_id = f.fileid;
    block_size = config.block_size;
    block_offset = some f.block_offset;
    block_bitmap = some f.bitmap;
    number_of_blocks = none;
  }

  unfoldable pub get_topic : FileContext d → Str → Outcome OtaError Str
  get_topic f =
      format_stream d (max_stream_id_len + max_thing_name_len + 30)
        (OtaTopic.get Encoding.cbor f.stream_name)

  unfoldable pub request_file_block : Cbor d → Mqtt d → Config → OnFile d (Unit {0})
  unfolding reset_requested stream_request get_topic
  request_file_block cbor mqtt config = do
    (λ s. (ok tt, (reset_requested s.0, s.1)))
    file_ctx ← gets (λ s. s.0)
    buf ← lift (ok_or OtaError.encoding (cbor.to_slice 32 (stream_request config file_ctx)))
    topic_path ← lift (get_topic file_ctx mqtt.client_id)
    on_client (on_mqtt OtaError.mqtt (mqtt.publish topic_path buf at_most_once))

  unfoldable pub decode_file_block : Cbor d → List ℕ → OnFile d FileBlock
  unfolding file_block
  decode_file_block cbor payload =
      lift (map_ok (λ v. file_block v) (ok_or OtaError.encoding (cbor.from_mut_slice payload)))

  unfoldable pub cleanup : Mqtt d → Config → OnFile d (Unit {0})
  unfolding data_topic
  cleanup mqtt config =
      if config.unsubscribe_on_shutdown
      then (do
        file_ctx ← gets (λ s. s.0)
        topic_path ← lift (data_topic file_ctx mqtt.client_id)
        on_client (on_mqtt OtaError.mqtt (mqtt.unsubscribe (topic_path ∷ []))))
      else pure tt

  unfoldable pub mqtt_interface : Cbor d → Mqtt d → DataInterface d
  mqtt_interface cbor mqtt = record {
    protocol = Protocol.mqtt;
    init_file_transfer = init_file_transfer mqtt;
    request_file_block = request_file_block cbor mqtt;
    decode_file_block = decode_file_block cbor;
    cleanup = cleanup mqtt;
  }
