-- ===== src/Tests/Streams.antt =====
-- A file that comes over MQTT.
use rustot.Prelude.{ℕ, ◌≡◌, refl, some, [], ◌∷◌, ok, arith, codes}
use rustot.Prelude.Text.{has}
use rustot.Deps.Reference.{reference-MapLaws}
use rustot.Ota.Config.{default}
use rustot.Ota.DataInterface.Mqtt.{mqtt_interface, init_file_transfer, cleanup}
use rustot.Ota.DataInterface.Mqtt.Sending.{cleanup-init_file_transfer}
use rustot.Ota.DataInterface.Mqtt.Topics.{
  Encoding, Topic, ota_topic, read_stream_topic, stream_path,
}
use rustot.Ota.DataInterface.Mqtt.Reading.{read_stream_topic-stream_path}
use rustot.Ota.State.Context.{Parts, SmContext, primary}
use rustot.Ota.State.Handlers.{request_data_handler}
use rustot.Ota.State.OverMqtt.{request_data_handler-publishes}
use rustot.Tests.Client.{mqtt, cbor}
use rustot.Tests.Device.{device, parts, context}
use rustot.Tests.Transfer.{first}

read_stream_topic-stream_path_example :
    read_stream_topic (
      stream_path (ota_topic (Topic.stream_data Encoding.cbor (codes "AFR_OTA-7"))) (codes "thing"))
    ≡ some (Topic.stream_data Encoding.cbor (codes "AFR_OTA-7"))
unfolding has
read_stream_topic-stream_path_example =
    read_stream_topic-stream_path (Topic.stream_data Encoding.cbor (codes "AFR_OTA-7"))
      (codes "thing") refl refl

cleanup-init_file_transfer_example :
    (init_file_transfer mqtt (first, 0) ≡ (ok tt, (first, 100)))
    × (cleanup mqtt default (first, 0) ≡ (ok tt, (first, 10000)))
cleanup-init_file_transfer_example =
    cleanup-init_file_transfer mqtt default first 0 (reference-MapLaws ℕ) (omega arith)
      (omega arith)

abbrev over_mqtt : Parts device
over_mqtt = record parts { data_primary = mqtt_interface cbor mqtt }

abbrev receiving : SmContext device
receiving = context (some (primary first))

request_data_handler-publishes_example : request_data_handler over_mqtt receiving ≡ (
  ok tt,
  record receiving { active_interface = some (primary first); request_momentum = 1; world = 2 },
)
request_data_handler-publishes_example =
    request_data_handler-publishes cbor mqtt over_mqtt receiving first (3 ∷ [])
      (reference-MapLaws ℕ) refl refl (λ e. ground arith) (omega arith) (omega arith) refl
      (omega arith) (omega arith) refl
