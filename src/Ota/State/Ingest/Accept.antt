-- ===== src/Ota/State/Ingest/Accept.antt =====
-- `ingest_data_block` of src/ota/state.rs at a block that is still to come.
use rustot.Prelude.{ℕ, suc, ◌+◌, ◌<◌, ◌≡◌, refl, true, not, ◌&&◌, some, List, ok, ◌==◌}
use rustot.Deps.{Deps, BitsLaws}
use rustot.Ota.Error.{OtaError}
use rustot.Ota.Encoding.{FileContext}
use rustot.Ota.DataInterface.{FileBlock, validate}
use rustot.Ota.DataInterface.Validate.{file_blocks}
use rustot.Ota.State.Context.{Parts, SmContext, Interface, file_ctx, set_file_ctx}
use rustot.Ota.State.Ingest.{ingest_data_block}
use rustot.Ota.State.Ingest.Shape.{DecodeKeepsFile, Decodes}
use rustot.Ota.State.Ingest.Window.{missing, IsReceiving}
use rustot.Ota.State.Ingest.Stores.{ingest_data_block-places}

-- The calls that receiving a block needs succeed.
pub record IsWilling {d : Deps} (parts : Parts d) : Type 0 where
  pub writes :
      (f : FileContext d) (offset : ℕ) (bytes : List ℕ) (w : d.World)
      → (n : ℕ) × ((parts.pal.write_block f offset bytes w).0 ≡ ok n)
  pub closes : (f : FileContext d) (w : d.World) → (parts.pal.close_file f w).0 ≡ ok tt
  pub cancels : (w : d.World) → (parts.request_timer.cancel w).0 ≡ ok tt

-- Where the platform writes and closes, the timer stops and the interface decodes a payload to a block
-- that `validate` accepts, that is still to come and that lies in the window of 31 blocks,
-- `ingest_data_block` succeeds. It returns true exactly for the last block to come, the counter falls by
-- one, and that block and no other is removed from those to come.
pub ingest_data_block-accepts :
    {d : Deps} (laws : BitsLaws d) (parts : Parts d) (payload : List ℕ) (c : SmContext d)
    (i : Interface d) (block : FileBlock)
    → IsWilling parts
    → DecodeKeepsFile parts payload
    → Decodes parts payload c block
    → c.active_interface ≡ some i
    → IsReceiving d c.config.block_size (file_ctx i)
    → validate {E = OtaError} block c.config.block_size (file_ctx i).filesize ≡ ok true
    → block.block_id < (file_ctx i).block_offset + 31
    → missing d (file_ctx i) block.block_id ≡ true
    → (f' : FileContext d) × ((ingest_data_block parts payload c).0
        ≡ ok ((file_ctx i).blocks_remaining == 1))
      × ((ingest_data_block parts payload c).1.active_interface ≡ some (set_file_ctx f' i))
      × ((file_ctx i).blocks_remaining ≡ suc f'.blocks_remaining)
      × ((j : ℕ)
          → j < file_blocks (file_ctx i).filesize c.config.block_size
          → missing d f' j ≡ (missing d (file_ctx i) j && not (j == block.block_id)))
ingest_data_block-accepts {d} laws parts payload c i block w k q h r v reach m =
    let all : d.World → Type 0 = λ _. Unit in
    let (f', o, a, rem, gone, _, _) =
      ingest_data_block-places laws parts payload c i block (file_ctx i).filepath all all all
        (record {
          writes = λ f w' _. (w.writes f _ _ w', tt);
          cancels = λ w' _. (w.cancels w', tt);
          closes = λ f w' _ _. (w.closes f w', tt);
        })
        refl k q tt h r v reach m in
    (f', o, a, rem, gone)
