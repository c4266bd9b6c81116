-- ===== src/Examples/FileHandler/Stored.antt =====
-- src/ota with the platform of examples/common/file_handler.rs: an update whose file ends up on the disk.
use rustot.Prelude.{ℕ, ◌<◌, ◌≡◌, true, some, List, ok}
use rustot.Deps.{Deps}
use rustot.Ota.Error.{OtaError}
use rustot.Ota.Encoding.{FileContext}
use rustot.Ota.DataInterface.{FileBlock, validate}
use rustot.Ota.DataInterface.Validate.{file_blocks}
use rustot.Ota.State.Context.{Parts, SmContext, primary}
use rustot.Ota.State.Ingest.Stores.{Stores}
use rustot.Ota.State.Ingest.Shape.{DecodeKeepsFile, Decodes}
use rustot.Examples.FileHandler.{FileSystem, FileSystemLaws}
use rustot.Examples.FileHandler.Assembled.{Carries}
use rustot.Examples.FileHandler.Update.{Disk, Apart, with_handler}

module _ {d : Deps} (fs : FileSystem d) (disk : Disk d fs) (laws : FileSystemLaws d fs)
    (parts : Parts d) (apart : Apart fs disk parts) (image : List ℕ) (payload : ℕ → List ℕ) where
  abbrev device : Parts d
  device = with_handler fs disk parts

  -- A service whose payload `k` is decoded to the block `k` of the file and carries its bytes.
  pub record Sends (b size : ℕ) : Type 0 where
    pub keeps : (k : ℕ) → DecodeKeepsFile device (payload k)
    pub blocks :
        (k : ℕ) (c : SmContext d) (f : FileContext d)
        → k < file_blocks size b
        → c.active_interface ≡ some (primary f)
        → (block : FileBlock) × Decodes device (payload k) c block
          × (block.block_id ≡ k)
          × (validate {E = OtaError} block b size ≡ ok true)
          × Carries image b block
