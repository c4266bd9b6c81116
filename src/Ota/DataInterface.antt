-- ===== src/Ota/DataInterface.antt =====
-- src/ota/data_interface/mod.rs: a block of a file, its validation, and what a data interface offers.
pub mod Validate
pub mod Mqtt
pub mod Http
use rustot.Prelude.{
  ℕ, ◌+◌, ◌-◌, ◌*◌, ◌/◌, ◌%◌, Bool, true, false, ◌&&◌, ◌||◌, Option, List, Outcome, ok, err, panic,
  ltb, ◌==◌, Str,
}
use rustot.Prelude.Stateful.{Exec, lift}
use rustot.Prelude.Fallible.{◌>>=◌}
use rustot.Deps.{Deps}
use rustot.Ota.Config.{Config, usize, usize_sub}
use rustot.Ota.Error.{OtaError}
use rustot.Ota.Encoding.{FileContext, total_blocks}
use rustot.Ota.Protocol.{Protocol}

pub record FileBlock : Type 0 where
  pub client_token : Option Str
  pub file_id : ℕ  -- u8
  pub block_size : ℕ  -- usize
  pub block_id : ℕ  -- usize
  pub block_payload : List ℕ

-- `FileBlock::validate`: a full block before the last, or the last with what is left.
unfoldable pub validate : {E : Type 0} → FileBlock → ℕ → ℕ → Outcome E Bool
unfolding total_blocks
validate block block_size filesize = do
  total ← total_blocks filesize block_size
  let last_block_id = usize_sub total 1
  ok (
      ltb block.block_id last_block_id && block.block_size == block_size
      || block.block_id == last_block_id
        && block.block_size == usize_sub filesize (usize (last_block_id * block_size)))

-- A `&mut FileContext` is part of the state that a call changes.
abbrev pub OnFile : Deps → Type 0 → Type 0
OnFile d A = Exec (FileContext d × d.World) OtaError A

pub record DataInterface (d : Deps) : Type 0 where
  pub protocol : Protocol
  pub init_file_transfer : OnFile d (Unit {0})
  pub request_file_block : Config → OnFile d (Unit {0})
  pub decode_file_block : List ℕ → OnFile d FileBlock
  pub cleanup : Config → OnFile d (Unit {0})

-- `NoInterface`: each of its methods is `unreachable!()`.
unfoldable pub no_interface : (d : Deps) → DataInterface d
no_interface d = record {
  protocol = Protocol.mqtt;
  init_file_transfer = lift panic;
  request_file_block = λ config. lift panic;
  decode_file_block = λ payload. lift panic;
  cleanup = λ config. lift panic;
}
