-- ===== src/Ota/Protocol.antt =====
-- src/ota/data_interface/mod.rs: the protocols over which a file comes.
use rustot.Prelude.{Bool, true, false}

pub data Protocol : Type 0 where
  mqtt http : Protocol

unfoldable pub protocol_eq : Protocol → Protocol → Bool
protocol_eq Protocol.mqtt Protocol.mqtt = true
protocol_eq Protocol.http Protocol.http = true
protocol_eq _ _ = false
