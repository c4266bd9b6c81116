-- ===== src/Examples/FileHandler/Transfer.antt =====
-- src/ota/state.rs with the platform of examples/common/file_handler.rs: a whole file that is received.
use rustot.Prelude.{ℕ, ◌+◌, ◌<◌, ◌≡◌, some, List}
use rustot.Deps.{Deps}
use rustot.Ota.Config.{Config}
use rustot.Ota.Encoding.{FileContext}
use rustot.Ota.DataInterface.{FileBlock}
use rustot.Ota.State.Context.{Parts, SmContext, primary}
use rustot.Ota.State.Ingest.{ingest_data_block}
use rustot.Ota.State.Ingest.Shape.{Decodes}
use rustot.Ota.State.Ingest.Window.{IsReceiving}
use rustot.Examples.FileHandler.{Cursor, FileSystem}
use rustot.Examples.FileHandler.Buffer.{Collects}
use rustot.Examples.FileHandler.Assembled.{Carries, Assembled}

module _ {d : Deps} (fs : FileSystem d) (parts : Parts d) (image : List ℕ) where
  -- A payload that, if it is decoded to a block, carries the bytes of the file and is within the 32 bits
  -- of the bitmap.
  pub record Serves (c : SmContext d) (payload : List ℕ) : Type 0 where
    pub collects : Collects fs parts payload
    pub blocks :
        (f : FileContext d) (block : FileBlock)
        → c.active_interface ≡ some (primary f)
        → Decodes parts payload c block
        → (block.block_id < f.block_offset + 32) × Carries image c.config.block_size block

  -- Payloads that come one after the other, each of which serves. How a call ends does not matter.
  pub data Receives : SmContext d → SmContext d → Type 0 where
    stop : (c : SmContext d) → Receives c c
    next :
        (c c' : SmContext d) (payload : List ℕ)
        → Serves c payload
        → Receives (ingest_data_block parts payload c).1 c'
        → Receives c c'

  -- A file is being received, and the bytes of the blocks that are here stand in the buffer.
  record Holds (b : ℕ) (c : SmContext d) : Type 0 where
    file : FileContext d
    cursor : Cursor
    active : c.active_interface ≡ some (primary file)
    sized : c.config.block_size ≡ b
    buffer : fs.filebuf c.world ≡ some cursor
    receiving : IsReceiving d c.config.block_size file
    assembled : Assembled image c.config.block_size file cursor.inner
