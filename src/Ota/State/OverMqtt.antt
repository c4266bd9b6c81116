-- ===== src/Ota/State/OverMqtt.antt =====
-- src/ota/state.rs with the data interface of src/ota/data_interface/mqtt.rs: the requests for blocks
-- and the blocks that come.
use rustot.Prelude.{
  ℕ, ◌+◌, ◌≤◌, ◌<◌, ◌≡◌, ◌≢◌, some, List, ok, arith, length, map_err, ap, ◌∙◌, Outcome,
}
use rustot.Deps.{Deps, MapLaws}
use rustot.Mqtt.{Mqtt, at_most_once}
use rustot.Ota.Config.{u32}
use rustot.Ota.Error.{OtaError}
use rustot.Ota.Encoding.{FileContext}
use rustot.Ota.Encoding.Cbor.{Cbor}
use rustot.Ota.DataInterface.{DataInterface}
use rustot.Ota.DataInterface.Mqtt.{mqtt_interface, stream_request}
use rustot.Ota.DataInterface.Mqtt.Topics.{Encoding, OtaTopic, stream_path}
use rustot.Ota.DataInterface.Mqtt.Sending.{request_file_block-publishes}
use rustot.Ota.State.Context.{Parts, SmContext, primary, file_ctx, set_file_ctx}
use rustot.Ota.State.Handlers.{request_data_handler}

-- What a call on the file gives, in the context of which the file is the primary one.
abbrev asked :
    {d : Deps}
    → SmContext d
    → Outcome OtaError (Unit {0}) × (FileContext d × d.World)
    → Outcome OtaError (Unit {0}) × SmContext d
asked c r = (
  r.0,
  record c {
    active_interface = some (primary r.1.0);
    request_momentum = c.request_momentum + 1;
    world = r.1.1;
  },
)

request_data_handler-asked :
    {d : Deps} (parts : Parts d) (c : SmContext d) (f : FileContext d)
    → c.active_interface ≡ some (primary f)
    → f.blocks_remaining ≢ 0
    → c.request_momentum ≤ c.config.max_request_momentum
    → c.config.max_request_momentum < 255
    → (parts.request_timer.begin c.config.request_wait_ms c.world).0 ≡ ok tt
    → let w = (parts.request_timer.begin c.config.request_wait_ms c.world).1 in
      request_data_handler parts c ≡ asked c (parts.data_primary.request_file_block c.config (f, w))
unfolding request_data_handler file_ctx set_file_ctx
request_data_handler-asked parts c f a b m x t = ground (arith, a, t)

module _ {d : Deps} (cbor : Cbor d) (mqtt : Mqtt d) (parts : Parts d) where
  -- With an active job over MQTT of which blocks remain, a momentum that is at most its maximum below 255
  -- and a request timer that starts, the agent asks for the blocks of the window: where the names are
  -- short enough and the request is encoded, its payload goes to the request topic of the file's stream.
  -- The momentum rises by one, the number of requested blocks is the number of blocks to come in the
  -- window, and nothing else of the context changes.
  pub request_data_handler-publishes :
      (c : SmContext d) (f : FileContext d) (payload : List ℕ)
      → MapLaws d
      → parts.data_primary ≡ mqtt_interface cbor mqtt
      → c.active_interface ≡ some (primary f)
      → f.blocks_remaining ≢ 0
      → c.request_momentum ≤ c.config.max_request_momentum
      → c.config.max_request_momentum < 255
      → (parts.request_timer.begin c.config.request_wait_ms c.world).0 ≡ ok tt
      → length mqtt.client_id ≤ 128
      → length f.stream_name ≤ 64
      → cbor.to_slice 32 (stream_request c.config f) ≡ some payload
      → let path = stream_path (OtaTopic.get Encoding.cbor f.stream_name) mqtt.client_id in
        let w = (parts.request_timer.begin c.config.request_wait_ms c.world).1 in
        let p = mqtt.publish path payload at_most_once w in
        request_data_handler parts c ≡ (
          map_err OtaError.mqtt p.0,
          record c {
            active_interface =
                some (primary (record f { request_block_remaining = u32 (d.ones f.bitmap) }));
            request_momentum = c.request_momentum + 1;
            world = p.1;
          },
        )
  unfolding mqtt_interface
  request_data_handler-publishes c f payload laws i a b m x t l k e =
      let w = (parts.request_timer.begin c.config.request_wait_ms c.world).1 in
      request_data_handler-asked parts c f a b m x t
      ∙ ap (λ (di : DataInterface d). asked c (di.request_file_block c.config (f, w))) i
      ∙ ap (asked c) (request_file_block-publishes cbor mqtt c.config f w payload laws l k e)
