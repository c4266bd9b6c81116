-- ===== src/Ota/State/Ingest/Refinement.antt =====
-- `ingest_data_block` of src/ota/state.rs and the set of the blocks that are still to come.
use rustot.Prelude.{
  ℕ, ◌+◌, ◌<◌, ◌≡◌, ◌≢◌, refl, sym, ◌∙◌, subst, ◌⊎◌, inl, inr, Bool, true, false, not, ◌&&◌, some,
  List, Outcome, ok, ◌==◌,
}
use rustot.Deps.{Deps, BitsLaws}
use rustot.Deps.Count.{count_below-zero}
use rustot.Ota.Error.{OtaError}
use rustot.Ota.Config.{Config}
use rustot.Ota.Encoding.{FileContext}
use rustot.Ota.DataInterface.{FileBlock}
use rustot.Ota.DataInterface.Validate.{file_blocks, validate_iff}
use rustot.Ota.State.Context.{Parts, SmContext, Interface, file_ctx, set_file_ctx}
use rustot.Ota.State.Ingest.{mark_received, ingest_data_block}
use rustot.Ota.State.Ingest.Shape.{
  Ending, unchanged, last, more, DecodeKeepsFile, Decodes, ingest_data_block_ending,
}
use rustot.Ota.State.Ingest.Window.{
  missing, IsReceiving, missing-new, missing-mark_received, mark_received-IsReceiving,
  next_window-MovesOn,
}

module _ {d : Deps} where
  -- The step of the specification: nothing happens, or one block that was to come is no longer.
  pub data Progress (n : ℕ) (f f' : FileContext d) : Type 0 where
    same : ((j : ℕ) → j < n → missing d f' j ≡ missing d f j) → Progress n f f'
    received :
        (k : ℕ)
        → k < n
        → missing d f k ≡ true
        → ((j : ℕ) → j < n → missing d f' j ≡ (missing d f j && not (j == k)))
        → Progress n f f'

  -- What a call does to the file context: it stays the context of a file that is being received, a
  -- step of the specification is made, the end of the file is told only when no block is to come, and
  -- after a new block that is not the last the window has a bit to ask for.
  pub record Ingested (block_size : ℕ) (f : FileContext d) (r : Outcome OtaError Bool)
      (f' : FileContext d) : Type 0 where
    pub receiving : IsReceiving d block_size f'
    pub filesize_kept : f'.filesize ≡ f.filesize
    pub progress : Progress (file_blocks f.filesize block_size) f f'
    pub complete :
        r ≡ ok true → (j : ℕ) → j < file_blocks f.filesize block_size → missing d f' j ≡ false
    pub window :
        r ≡ ok false → (f' ≡ f) ⊎ ((f'.blocks_remaining ≢ 0) × (d.is_empty f'.bitmap ≡ false))

module _ {d : Deps} (laws : BitsLaws d) (D : FileBlock → Type 0) (config : Config)
    (f : FileContext d) (r : IsReceiving d config.block_size f)
    (reach : (block : FileBlock) → D block → block.block_id < f.block_offset + 32) where
  pub Ending-Ingested :
      (o : Outcome OtaError Bool) (f' : FileContext d)
      → Ending D config f o f'
      → Ingested config.block_size f o f'
  unfolding mark_received
  Ending-Ingested o f' (unchanged n e) = subst (Ingested config.block_size f o) (sym e) (record {
    receiving = r;
    filesize_kept = refl;
    progress = same (λ j l. refl);
    complete = λ t. absurd (n t);
    window = λ t. inl refl;
  })
  Ending-Ingested o f' (last block q v new n done e) =
      let of_file = ((validate_iff block config.block_size f.filesize r.fits).0 v).0 in
      let still =
        mark_received-IsReceiving d laws config.block_size f block r of_file (reach block q) new in
      subst (Ingested config.block_size f o) (sym e) (record {
        receiving = still;
        filesize_kept = refl;
        progress =
            received block.block_id of_file
              (missing-new d laws config.block_size f block r of_file (reach block q) new)
              (λ j l.
                missing-mark_received d laws config.block_size f block r of_file (reach block q) new
                  j);
        complete = λ t j l.
            count_below-zero (file_blocks f.filesize config.block_size) _ j
              (sym still.counted ∙ done t) l;
        window = λ t. absurd (n t);
      })
  Ending-Ingested o f' (more block q v new n e w) =
      let of_file = ((validate_iff block config.block_size f.filesize r.fits).0 v).0 in
      let still =
        mark_received-IsReceiving d laws config.block_size f block r of_file (reach block q) new in
      let on = next_window-MovesOn d laws config (mark_received block f) still n f' w in
      record {
        receiving = on.receiving;
        filesize_kept = on.filesize_kept;
        progress =
            received block.block_id of_file
              (missing-new d laws config.block_size f block r of_file (reach block q) new)
              (λ j l.
                on.same j l
                ∙ missing-mark_received d laws config.block_size f block r of_file (reach block q)
                    new j);
        complete = λ t. cc;
        window = λ t. inr (λ z. n (sym on.remaining_kept ∙ z), on.nonempty_window);
      }

-- From a context that is receiving a file, with an interface that decodes without touching the file
-- context and a block, if one is decoded, within the 32 bits of the bitmap, every call of
-- `ingest_data_block`, however it ends, leaves an active context that is receiving the same file. No
-- block or one that was to come is removed from those to come, `Ok(true)` is returned only when none is
-- left, and after `Ok(false)` either nothing changed or blocks remain and the window is not empty.
pub ingest_data_block-Ingested :
    {d : Deps} (laws : BitsLaws d) (parts : Parts d) (payload : List ℕ) (c : SmContext d)
    (i : Interface d)
    → DecodeKeepsFile parts payload
    → c.active_interface ≡ some i
    → IsReceiving d c.config.block_size (file_ctx i)
    → ((block : FileBlock)
        → Decodes parts payload c block
        → block.block_id < (file_ctx i).block_offset + 32)
    → (f' : FileContext d) × ((ingest_data_block parts payload c).1.active_interface
        ≡ some (set_file_ctx f' i))
      × Ingested c.config.block_size (file_ctx i) (ingest_data_block parts payload c).0 f'
ingest_data_block-Ingested laws parts payload c i k h r reach =
    let (f', a, e) = ingest_data_block_ending parts payload c i k h in
    (f', a, Ending-Ingested laws (Decodes parts payload c) c.config (file_ctx i) r reach _ f' e)
