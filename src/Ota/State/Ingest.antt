-- ===== src/Ota/State/Ingest.antt =====
-- src/ota/state.rs: `ingest_data_block`, which writes a received block and keeps the bitmap.
pub mod Accept
pub mod Begin
pub mod Stores
pub mod Arrived
pub mod InOrder
pub mod Kept
pub mod Refinement
pub mod Window
pub mod Shape
use rustot.Prelude.{
  ℕ, ◌+◌, ◌*◌, ◌%◌, ◌-◌, Bool, true, false, not, ◌||◌, List, Outcome, ok, err, ltb, ◌==◌, map_ok,
  if◌then◌else◌,
}
use rustot.Prelude.Stateful.{◌>>=◌, ◌>>◌, pure, fail, lift, gets}
use rustot.Deps.{Deps}
use rustot.Ota.Config.{Config, usize, usize_sub, u32}
use rustot.Ota.Error.{OtaError}
use rustot.Ota.Pal.{OtaPal}
use rustot.Ota.Encoding.{FileContext, new_bitmap}
use rustot.Ota.DataInterface.{DataInterface, FileBlock, validate}
use rustot.Ota.State.Context.{
  Parts, SmContext, CountDown, Handler, on_pal, on_timer, get_file, modify_file, data_interface,
}

pub move_window : (d : Deps) → Config → ℕ → FileContext d → Outcome OtaError (FileContext d)
move_window d config offset file =
    map_ok (λ b. record file { block_offset = offset; bitmap = b })
      (new_bitmap d file.filesize config.block_size offset)

module _ {d : Deps} where
  -- The test of a duplicate: before the window, or its bit is clear.
  unfoldable pub is_duplicate : FileBlock → FileContext d → Bool
  is_duplicate block file =
      ltb block.block_id file.block_offset
      || not (d.bit file.bitmap (usize_sub block.block_id file.block_offset))

  -- The bit and the count after the block is written.
  unfoldable pub mark_received : FileBlock → FileContext d → FileContext d
  mark_received block file = record file {
    bitmap = d.set_bit file.bitmap (usize_sub block.block_id file.block_offset) false;
    blocks_remaining = usize_sub file.blocks_remaining 1;
  }

  -- Move the window on by 31 blocks when all in it are here.
  unfoldable pub next_window : Config → FileContext d → Outcome OtaError (FileContext d)
  unfolding move_window
  next_window config file =
      if d.is_empty file.bitmap
      then move_window d config (u32 (file.block_offset + 31)) file
      else ok file

module _ {d : Deps} (parts : Parts d) where
  -- After the block is marked: the end of the file, or the next window.
  unfoldable pub after_block : Config → FileContext d → Handler d Bool
  unfolding next_window
  after_block config file =
      if file.blocks_remaining == 0
      then (do on_timer parts.request_timer.cancel; on_pal (parts.pal.close_file file); pure true)
      else (do file' ← lift (next_window config file); modify_file (λ _. file'); pure false)

  unfoldable pub ingest_valid : Config → FileBlock → FileContext d → Handler d Bool
  unfolding is_duplicate mark_received after_block
  ingest_valid config block file = if is_duplicate block file then pure false else (do
    on_pal (
        parts.pal.write_block file (usize (block.block_id * config.block_size)) block.block_payload)
    modify_file (mark_received block)
    after_block config (mark_received block file))

  unfoldable pub ingest_block : FileBlock → Handler d Bool
  unfolding ingest_valid validate
  ingest_block block = do
    file ← get_file
    config ← gets (λ c. c.config)
    valid ← lift (validate block config.block_size file.filesize)
    if valid then ingest_valid config block file else fail OtaError.block_out_of_range

  unfoldable pub ingest_data_block : List ℕ → Handler d Bool
  unfolding ingest_block
  ingest_data_block payload = do
    block ← data_interface parts (λ di. di.decode_file_block payload)
    ingest_block block
