-- ===== src/Ota/State/Ingest/Stores.antt =====
-- `ingest_data_block` of src/ota/state.rs at a block that is still to come, and the kind of world that is
-- left.
use rustot.Prelude.{
  ℕ, suc, ◌+◌, ◌*◌, ◌<◌, ◌≡◌, ◌≢◌, refl, sym, ap, ◌∙◌, subst, inl, inr, Bool, true, false, not,
  ◌&&◌, some, List, Outcome, ok, arith, ◌==◌, Str, Bool-cases, ==_iff,
}
use rustot.Deps.{Deps, BitsLaws}
use rustot.Ota.Error.{OtaError}
use rustot.Ota.Config.{Config, usize}
use rustot.Ota.Encoding.{FileContext}
use rustot.Ota.DataInterface.{DataInterface, FileBlock, validate}
use rustot.Ota.DataInterface.Validate.{file_blocks, file_blocks-lt, validate_iff}
use rustot.Ota.State.Context.{
  Parts, SmContext, Interface, file_ctx, set_file_ctx, choose, data_interface,
}
use rustot.Ota.State.Ingest.{
  is_duplicate, mark_received, next_window, after_block, ingest_valid, ingest_block,
  ingest_data_block,
}
use rustot.Ota.State.Ingest.Shape.{
  DecodeKeepsFile, Decodes, set_file_ctx-set_file_ctx, decode-active, choose-config,
}
use rustot.Ota.State.Ingest.Window.{
  missing, IsReceiving, missing-mark_received, mark_received-remaining, mark_received-IsReceiving,
  next_window-MovesOn, next_window_total,
}

-- The calls succeed that storing one block needs, and take worlds of one kind to worlds of the next.
pub record Stores {d : Deps} (parts : Parts d) (path : Str) (Before After Closed : d.World → Type 0)
    (offset : ℕ) (bytes : List ℕ) : Type 0 where
  pub writes :
      (f : FileContext d) (w : d.World)
      → Before w
      → let r = parts.pal.write_block f offset bytes w in ((n : ℕ) × (r.0 ≡ ok n)) × After r.1
  pub cancels :
      (w : d.World) → After w → let r = parts.request_timer.cancel w in (r.0 ≡ ok tt) × After r.1
  pub closes :
      (f : FileContext d) (w : d.World)
      → f.filepath ≡ path
      → After w
      → let r = parts.pal.close_file f w in (r.0 ≡ ok tt) × Closed r.1

module _ {d : Deps} (parts : Parts d) (path : Str) (Before After Closed : d.World → Type 0)
    (offset : ℕ) (bytes : List ℕ)
    (stores : Stores parts path Before After Closed offset bytes) where
  -- What a call returns and leaves in the active interface, and the kind of its world.
  abbrev Gives :
      (d.World → Type 0)
      → Bool
      → FileContext d
      → Interface d
      → Outcome OtaError Bool × SmContext d
      → Type 0
  Gives H b f i (r, c) = (r ≡ ok b) × (c.active_interface ≡ some (set_file_ctx f i)) × H c.world

  after_block_last :
      (config : Config) (f : FileContext d) (c : SmContext d) (i : Interface d)
      → c.active_interface ≡ some (set_file_ctx f i)
      → f.blocks_remaining ≡ 0
      → f.filepath ≡ path
      → After c.world
      → Gives Closed true f i (after_block parts config f c)
  unfolding after_block
  after_block_last config f c i h z p a =
      let w = (parts.request_timer.cancel c.world).1 in
      let (cancelled, a') = stores.cancels c.world a in
      let (closed, done) = stores.closes f w p a' in
      let same : (after_block parts config f c).1.world ≡ (parts.pal.close_file f w).1 =
        ground (arith, cancelled, closed) in
      (
        ground (arith, cancelled, closed),
        ground (arith, cancelled, closed),
        subst Closed (sym same) done,
      )

  after_block_more :
      (config : Config) (f f' : FileContext d) (c : SmContext d) (i : Interface d)
      → c.active_interface ≡ some (set_file_ctx f i)
      → f.blocks_remaining ≢ 0
      → next_window config f ≡ ok f'
      → After c.world
      → Gives After false f' i (after_block parts config f c)
  unfolding after_block
  after_block_more config f f' c i h z w a = elim (Bool-cases (f.blocks_remaining == 0)) [
    | inl e ↦ absurd (z (ground arith))
    | inr e ↦ rw (e, w) (refl, simp h (ap some (set_file_ctx-set_file_ctx f' f i)), a)
  ]

  -- The block that is decoded, at the active context.
  module _ (laws : BitsLaws d) (config : Config) (block : FileBlock) (i : Interface d)
      (r : IsReceiving d config.block_size (file_ctx i))
      (of_file : block.block_id < file_blocks (file_ctx i).filesize config.block_size)
      (reach : block.block_id < (file_ctx i).block_offset + 31)
      (wanted : missing d (file_ctx i) block.block_id ≡ true)
      (place : offset ≡ usize (block.block_id * config.block_size))
      (carried : bytes ≡ block.block_payload) (placed : (file_ctx i).filepath ≡ path) where
    not_duplicate : is_duplicate block (file_ctx i) ≡ false
    unfolding is_duplicate
    not_duplicate = ground (arith, file_blocks-lt (file_ctx i).filesize config.block_size r.fits)

    remaining :
        (file_ctx i).blocks_remaining ≡ suc (mark_received block (file_ctx i)).blocks_remaining
    remaining =
        mark_received-remaining d laws config.block_size (file_ctx i) block r of_file (omega arith)
          not_duplicate

    still : IsReceiving d config.block_size (mark_received block (file_ctx i))
    still =
        mark_received-IsReceiving d laws config.block_size (file_ctx i) block r of_file
          (omega arith) not_duplicate

    removed :
        (j : ℕ)
        → missing d (mark_received block (file_ctx i)) j
          ≡ (missing d (file_ctx i) j && not (j == block.block_id))
    removed =
        missing-mark_received d laws config.block_size (file_ctx i) block r of_file (omega arith)
          not_duplicate

    -- What a call that receives the block gives: whether it was the last, one block fewer to come, and
    -- the kind of its world.
    abbrev Accepts : Outcome OtaError Bool × SmContext d → Type 0
    Accepts (o, c) =
        (f' : FileContext d) × (o ≡ ok ((file_ctx i).blocks_remaining == 1))
        × (c.active_interface ≡ some (set_file_ctx f' i))
        × ((file_ctx i).blocks_remaining ≡ suc f'.blocks_remaining)
        × ((j : ℕ)
            → j < file_blocks (file_ctx i).filesize config.block_size
            → missing d f' j ≡ (missing d (file_ctx i) j && not (j == block.block_id)))
        × (f'.blocks_remaining ≡ 0 → Closed c.world)
        × (f'.blocks_remaining ≢ 0 → After c.world)

    after_block-Accepts :
        (c : SmContext d)
        → c.active_interface ≡ some (set_file_ctx (mark_received block (file_ctx i)) i)
        → After c.world
        → Accepts (after_block parts config (mark_received block (file_ctx i)) c)
    unfolding mark_received
    after_block-Accepts c h before =
        let m = mark_received block (file_ctx i) in
        elim (Bool-cases (m.blocks_remaining == 0)) [
          | inl z ↦
              let none_left = (==_iff m.blocks_remaining 0).0 z in
              let (o, a, closed) = after_block_last config m c i h none_left placed before in
              (
                m,
                o ∙ ap ok (ground (arith, remaining)),
                a,
                remaining,
                λ j l. removed j,
                λ e. closed,
                λ ne. absurd (ne none_left),
              )
          | inr z ↦
              let nz : m.blocks_remaining ≢ 0 = λ e. ground arith in
              let (f', w) = next_window_total d laws config m still nz in
              let on = next_window-MovesOn d laws config m still nz f' w in
              let (o, a, after) = after_block_more config m f' c i h nz w before in
              (
                f',
                o ∙ ap ok (ground (arith, remaining)),
                a,
                remaining ∙ ap suc (sym on.remaining_kept),
                λ j l. on.same j l ∙ removed j,
                λ e. absurd (nz (sym on.remaining_kept ∙ e)),
                λ ne. after,
              )
        ]

    ingest_valid-Accepts :
        (c : SmContext d)
        → c.active_interface ≡ some i
        → Before c.world
        → Accepts (ingest_valid parts config block (file_ctx i) c)
    unfolding ingest_valid
    ingest_valid-Accepts c h before =
        let ((n, e), after) = stores.writes (file_ctx i) c.world before in
        let e' : (parts.pal.write_block (file_ctx i) (usize (block.block_id * config.block_size))
              block.block_payload c.world).0
            ≡ ok n =
          rw (sym place, sym carried) e in
        rw (not_duplicate, e')
          (after_block-Accepts _ (ground arith) (rw (sym place, sym carried) after))

    ingest_block-Accepts :
        (c : SmContext d)
        → c.active_interface ≡ some i
        → c.config ≡ config
        → Before c.world
        → validate {E = OtaError} block config.block_size (file_ctx i).filesize ≡ ok true
        → Accepts (ingest_block parts block c)
    unfolding ingest_block
    ingest_block-Accepts c h k before v = simp (h, k, v) (ingest_valid-Accepts c h before)

-- A block that is still to come is received. Where decoding leaves a world in which the block is
-- written, a call leaves one of the next kind, and after the last block one of the kind of closed files.
pub ingest_data_block-places :
    {d : Deps} (laws : BitsLaws d) (parts : Parts d) (payload : List ℕ) (c : SmContext d)
    (i : Interface d) (block : FileBlock) (path : Str) (Before After Closed : d.World → Type 0)
    → Stores parts path Before After Closed
        (usize (block.block_id * c.config.block_size))
        block.block_payload
    → (file_ctx i).filepath ≡ path
    → DecodeKeepsFile parts payload
    → Decodes parts payload c block
    → Before (data_interface parts (λ di. di.decode_file_block payload) c).1.world
    → c.active_interface ≡ some i
    → IsReceiving d c.config.block_size (file_ctx i)
    → validate {E = OtaError} block c.config.block_size (file_ctx i).filesize ≡ ok true
    → block.block_id < (file_ctx i).block_offset + 31
    → missing d (file_ctx i) block.block_id ≡ true
    → let r = ingest_data_block parts payload c in
      (f' : FileContext d) × (r.0 ≡ ok ((file_ctx i).blocks_remaining == 1))
      × (r.1.active_interface ≡ some (set_file_ctx f' i))
      × ((file_ctx i).blocks_remaining ≡ suc f'.blocks_remaining)
      × ((j : ℕ)
          → j < file_blocks (file_ctx i).filesize c.config.block_size
          → missing d f' j ≡ (missing d (file_ctx i) j && not (j == block.block_id)))
      × (f'.blocks_remaining ≡ 0 → Closed r.1.world)
      × (f'.blocks_remaining ≢ 0 → After r.1.world)
unfolding ingest_data_block
ingest_data_block-places laws parts payload c i block path Before After Closed s p k q before h r v
      reach m =
    let decode = λ (di : DataInterface _). di.decode_file_block payload in
    let of_file = ((validate_iff block c.config.block_size (file_ctx i).filesize r.fits).0 v).0 in
    let decoded : (choose parts decode (some i) c).0 ≡ ok block = simp h at q in
    let before' : Before (choose parts decode (some i) c).1.world = simp h at before in
    simp (h, decoded)
      (ingest_block-Accepts parts path Before After Closed
        (usize (block.block_id * c.config.block_size)) block.block_payload s laws c.config block i r
        of_file reach m refl refl p (choose parts decode (some i) c).1
        (decode-active parts payload c i k h) (choose-config parts decode i c) before' v)
