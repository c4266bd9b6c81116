-- ===== src/Examples/FileHandler/Buffer.antt =====
-- `ingest_data_block` of src/ota/state.rs with the platform of examples/common/file_handler.rs: the
-- buffer after a call.
use rustot.Prelude.{
  ℕ, ◌*◌, ◌≡◌, refl, sym, ap, ◌∙◌, inl, inr, Bool, true, false, Option, none, some, List, Outcome,
  ok, arith, length, Bool-cases, Outcome-cases, subst,
}
use rustot.Deps.{Deps}
use rustot.Ota.Config.{Config, usize}
use rustot.Ota.Error.{OtaError}
use rustot.Ota.Pal.{OtaPal}
use rustot.Ota.Encoding.{FileContext}
use rustot.Ota.DataInterface.{FileBlock, validate}
use rustot.Ota.State.Context.{Parts, SmContext, Interface, primary, file_ctx, set_file_ctx, choose}
use rustot.Ota.State.Ingest.{
  is_duplicate, mark_received, after_block, ingest_valid, ingest_block, ingest_data_block,
}
use rustot.Ota.State.Ingest.Shape.{DecodeKeepsFile}
use rustot.Examples.FileHandler.{
  Cursor, FileSystem, FileSystemLaws, written, close_file, close_buffer, write_block, write_buffer,
  own, file_handler,
}

-- The platform is the file handler, and neither the timer nor the primary interface, which decodes a
-- payload, touches its buffer. Decoding leaves the file context alone.
pub record Collects {d : Deps} (fs : FileSystem d) (parts : Parts d) (payload : List ℕ)
    : Type 0 where
  pub handler : parts.pal ≡ file_handler fs
  pub cancels : (w : d.World) → fs.filebuf (parts.request_timer.cancel w).1 ≡ fs.filebuf w
  pub decodes :
      (f : FileContext d) (w : d.World)
      → fs.filebuf (parts.data_primary.decode_file_block payload (f, w)).1.1 ≡ fs.filebuf w
  pub keeps : DecodeKeepsFile parts payload

module _ {d : Deps} (fs : FileSystem d) (laws : FileSystemLaws d fs) where
  closed : (f : FileContext d) (w : d.World) → fs.filebuf (close_file fs f w).1 ≡ fs.filebuf w
  unfolding close_file close_buffer
  closed f w = elim (fs.filebuf w) as (λ b. fs.filebuf (close_buffer fs b f w).1 ≡ fs.filebuf w) [
    | none ↦ refl
    | some buf ↦ laws.filebuf-save f.filepath buf.inner w
  ]

  wrote :
      (f : FileContext d) (o : ℕ) (bytes : List ℕ) (w : d.World) (cur : Cursor)
      → fs.filebuf w ≡ some cur
      → ((write_block fs f o bytes w).0 ≡ ok (length bytes))
        × (fs.filebuf (write_block fs f o bytes w).1 ≡ some (written o bytes cur))
  unfolding write_block write_buffer
  wrote f o bytes w cur e = rw e (refl, laws.filebuf-set_filebuf (some (written o bytes cur)) w)

  module _ (parts : Parts d) (payload : List ℕ) (collects : Collects fs parts payload) where
    pal_closed :
        (f : FileContext d) (w : d.World) → fs.filebuf (parts.pal.close_file f w).1 ≡ fs.filebuf w
    unfolding file_handler own
    pal_closed f w =
        subst (λ (p : OtaPal d). fs.filebuf (p.close_file f w).1 ≡ fs.filebuf w)
          (sym collects.handler) (closed f w)

    pal_wrote :
        (f : FileContext d) (o : ℕ) (bytes : List ℕ) (w : d.World) (cur : Cursor)
        → fs.filebuf w ≡ some cur
        → ((parts.pal.write_block f o bytes w).0 ≡ ok (length bytes))
          × (fs.filebuf (parts.pal.write_block f o bytes w).1 ≡ some (written o bytes cur))
    unfolding file_handler own
    pal_wrote f o bytes w cur e =
        subst
          (λ (p : OtaPal d).
            ((p.write_block f o bytes w).0 ≡ ok (length bytes))
            × (fs.filebuf (p.write_block f o bytes w).1 ≡ some (written o bytes cur)))
          (sym collects.handler) (wrote f o bytes w cur e)

    after_block_buffer :
        (config : Config) (file : FileContext d) (c : SmContext d)
        → fs.filebuf (after_block parts config file c).1.world ≡ fs.filebuf c.world
    unfolding after_block
    after_block_buffer config file c =
        ground
          (arith, collects.cancels c.world, pal_closed file (parts.request_timer.cancel c.world).1)

    -- What a block does to the buffer.
    abbrev pub effect : Config → FileBlock → Cursor → Outcome OtaError Bool → Bool → Option Cursor
    effect config block cur (ok true) false =
        some (written (usize (block.block_id * config.block_size)) block.block_payload cur)
    effect config block cur _ _ = some cur

    ingest_valid_buffer :
        (config : Config) (block : FileBlock) (file : FileContext d) (c : SmContext d)
        (cur : Cursor)
        → fs.filebuf c.world ≡ some cur
        → fs.filebuf (ingest_valid parts config block file c).1.world
          ≡ effect config block cur (ok true) (is_duplicate block file)
    unfolding ingest_valid
    ingest_valid_buffer config block file c cur e =
        let (done, buf) =
          pal_wrote file (usize (block.block_id * config.block_size)) block.block_payload c.world
            cur e in
        elim (Bool-cases (is_duplicate block file)) [
          | inl dup ↦ rw dup e
          | inr new ↦ rw (new, done) (after_block_buffer config (mark_received block file) _ ∙ buf)
        ]

    ingest_block_buffer :
        (block : FileBlock) (c : SmContext d) (i : Interface d) (cur : Cursor)
        → c.active_interface ≡ some i
        → fs.filebuf c.world ≡ some cur
        → fs.filebuf (ingest_block parts block c).1.world
          ≡ effect c.config block cur
              (validate block c.config.block_size (file_ctx i).filesize)
              (is_duplicate block (file_ctx i))
    unfolding ingest_block
    ingest_block_buffer block c i cur h e =
        simp h
          (elim (Outcome-cases
            (validate {E = OtaError} block c.config.block_size (file_ctx i).filesize)) [
              | inl (true, v) ↦ rw v (ingest_valid_buffer c.config block (file_ctx i) c cur e)
              | inl (false, v) ↦ rw v e
              | inr (inl (x, v)) ↦ rw v e
              | inr (inr v) ↦ rw v e
            ])

    -- What a payload does to the buffer, by what it decodes to.
    abbrev pub effect_of :
        Config → FileContext d → Cursor → Outcome OtaError FileBlock → Option Cursor
    effect_of config f cur (ok block) =
        effect config block cur (validate block config.block_size f.filesize) (is_duplicate block f)
    effect_of config f cur _ = some cur

    abbrev pub decoded : SmContext d → FileContext d → Outcome OtaError FileBlock × SmContext d
    decoded c f = choose parts (λ di. di.decode_file_block payload) (some (primary f)) c

    decoded-active :
        (c : SmContext d) (f : FileContext d) → (decoded c f).1.active_interface ≡ some (primary f)
    unfolding file_ctx set_file_ctx
    decoded-active c f =
        ap (λ (g : FileContext d). some (primary g)) (collects.keeps.primary_keeps f c.world)

    decoded-buffer :
        (c : SmContext d) (f : FileContext d)
        → fs.filebuf (decoded c f).1.world ≡ fs.filebuf c.world
    unfolding file_ctx set_file_ctx
    decoded-buffer c f = collects.decodes f c.world

    pub ingest_data_block_buffer :
        (c : SmContext d) (f : FileContext d) (cur : Cursor)
        → c.active_interface ≡ some (primary f)
        → fs.filebuf c.world ≡ some cur
        → fs.filebuf (ingest_data_block parts payload c).1.world
          ≡ effect_of c.config f cur (decoded c f).0
    unfolding ingest_data_block file_ctx
    ingest_data_block_buffer c f cur h e = simp h (elim (Outcome-cases (decoded c f).0) [
      | inl (block, q) ↦ rw q (
          ingest_block_buffer block (decoded c f).1 (primary f) cur (decoded-active c f)
            (decoded-buffer c f ∙ e))
      | inr (inl (x, q)) ↦ rw q (decoded-buffer c f ∙ e)
      | inr (inr q) ↦ rw q (decoded-buffer c f ∙ e)
    ])
