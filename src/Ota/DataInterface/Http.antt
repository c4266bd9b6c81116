-- ===== src/Ota/DataInterface/Http.antt =====
-- src/ota/data_interface/http.rs: the interface that is not implemented yet.
use rustot.Prelude.{panic}
use rustot.Prelude.Stateful.{pure, lift}
use rustot.Deps.{Deps}
use rustot.Ota.Protocol.{Protocol}
use rustot.Ota.DataInterface.{DataInterface}

-- A block is not decoded: `unimplemented!()`.
unfoldable pub http_interface : (d : Deps) → DataInterface d
http_interface d = record {
  protocol = Protocol.http;
  init_file_transfer = pure tt;
  request_file_block = λ config. pure tt;
  decode_file_block = λ payload. lift panic;
  cleanup = λ config. pure tt;
}
