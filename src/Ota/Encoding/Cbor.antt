-- ===== src/Ota/Encoding/Cbor.antt =====
-- src/ota/encoding/cbor.rs: the messages of the streaming service.
use rustot.Prelude.{ℕ, Option, List, Str}
use rustot.Deps.{Deps}
use rustot.Ota.DataInterface.{FileBlock}

pub record DescribeStreamRequest : Type 0 where
  pub client_token : Option Str

pub record StreamFile : Type 0 where
  pub file_id : ℕ  -- u8
  pub file_size : ℕ  -- usize

pub record DescribeStreamResponse : Type 0 where
  pub client_token : Option Str
  pub stream_version : ℕ  -- u8
  pub description : Str
  pub files : List StreamFile

pub record GetStreamRequest (d : Deps) : Type 0 where
  pub client_token : Option Str
  pub stream_version : Option ℕ  -- u8
  pub file_id : ℕ  -- u8
  pub block_size : ℕ  -- usize
  pub block_offset : Option ℕ  -- u32
  pub block_bitmap : Option d.Bits
  pub number_of_blocks : Option ℕ  -- u32

pub record GetStreamResponse : Type 0 where
  pub client_token : Option Str
  pub file_id : ℕ  -- u8
  pub block_size : ℕ  -- usize
  pub block_id : ℕ  -- usize
  pub block_payload : List ℕ

pub record StreamError : Type 0 where
  pub error_code : Str
  pub error_message : Str
  pub client_token : Option Str

-- `From<GetStreamResponse> for FileBlock`
unfoldable pub file_block : GetStreamResponse → FileBlock
file_block v = record {
  client_token = v.client_token;
  file_id = v.file_id;
  block_size = v.block_size;
  block_id = v.block_id;
  block_payload = v.block_payload;
}

-- `serde_cbor`: `to_slice` writes a request into a buffer of some size, `from_mut_slice` reads a
-- response.
pub record Cbor (d : Deps) : Type 0 where
  pub to_slice : ℕ → GetStreamRequest d → Option (List ℕ)
  pub from_mut_slice : List ℕ → Option GetStreamResponse
