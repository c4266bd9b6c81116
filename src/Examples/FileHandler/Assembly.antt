-- ===== src/Examples/FileHandler/Assembly.antt =====
-- `ingest_data_block` of src/ota/state.rs with the platform of examples/common/file_handler.rs: the file
-- that is put together from its blocks, in whatever order they come.
use rustot.Prelude.{
  ℕ, ◌+◌, ◌*◌, ◌<◌, ◌≡◌, refl, sym, ap, ◌∙◌, ◌⊎◌, inl, inr, true, false, not, ◌&&◌, Option, some,
  List, Outcome, ok, arith, length, Bool-cases, Outcome-cases, subst, ◌==◌,
}
use rustot.Deps.{Deps, BitsLaws}
use rustot.Ota.Config.{usize}
use rustot.Ota.Error.{OtaError}
use rustot.Ota.Encoding.{FileContext}
use rustot.Ota.DataInterface.{FileBlock, validate}
use rustot.Ota.DataInterface.Validate.{file_blocks, validate_iff, lt-file_blocks_iff}
use rustot.Ota.State.Context.{Parts, SmContext, Interface, choose, primary, file_ctx, set_file_ctx}
use rustot.Ota.State.Ingest.{is_duplicate, mark_received, ingest_data_block}
use rustot.Ota.State.Ingest.Shape.{Ending, unchanged, last, more, Decodes, ingest_data_block_ending}
use rustot.Ota.State.Ingest.Window.{
  missing, IsReceiving, missing-mark_received, mark_received-IsReceiving, next_window-MovesOn,
}
use rustot.Ota.State.Ingest.Refinement.{Ending-Ingested}
use rustot.Examples.FileHandler.{Cursor, FileSystem, FileSystemLaws, written}
use rustot.Examples.FileHandler.Buffer.{Collects, effect_of, decoded, ingest_data_block_buffer}
use rustot.Examples.FileHandler.Assembled.{Carries, Assembled, write_at-Assembled, whole}

module _ {d : Deps} (bits : BitsLaws d) (fs : FileSystem d) (laws : FileSystemLaws d fs)
    (parts : Parts d) (payload : List ℕ) (c : SmContext d) (f : FileContext d) (image : List ℕ)
    (cur : Cursor) (collects : Collects fs parts payload)
    (active : c.active_interface ≡ some (primary f))
    (receiving : IsReceiving d c.config.block_size f) (here : fs.filebuf c.world ≡ some cur)
    (assembled : Assembled image c.config.block_size f cur.inner)
    (good : (block : FileBlock)
      → Decodes parts payload c block
      → (block.block_id < f.block_offset + 32) × Carries image c.config.block_size block) where
  abbrev b : ℕ
  b = c.config.block_size

  abbrev decodes_to : Outcome OtaError FileBlock
  decodes_to = (decoded fs laws parts payload collects c f).0

  decodes_to-Decodes : (block : FileBlock) → decodes_to ≡ ok block → Decodes parts payload c block
  decodes_to-Decodes block e =
      ap (λ (i : Option (Interface d)). (choose parts (λ di. di.decode_file_block payload) i c).0)
        active
      ∙ e

  Decodes-decodes_to : (block : FileBlock) → Decodes parts payload c block → decodes_to ≡ ok block
  Decodes-decodes_to block q =
      sym (
        ap (λ (i : Option (Interface d)). (choose parts (λ di. di.decode_file_block payload) i c).0)
          active)
      ∙ q

  buffer :
      fs.filebuf (ingest_data_block parts payload c).1.world
      ≡ effect_of fs laws parts payload collects c.config f cur decodes_to
  buffer = ingest_data_block_buffer fs laws parts payload collects c f cur active here

  in_image : (k : ℕ) → k < file_blocks f.filesize b → k * b < length image
  in_image k l =
      omega (arith, (lt-file_blocks_iff f.filesize b k receiving.fits).0 l, assembled.sized)

  of_image : (k : ℕ) → k * b < length image → k < file_blocks f.filesize b
  of_image k l =
      (lt-file_blocks_iff f.filesize b k receiving.fits).1 (omega (arith, l, assembled.sized))

  of_file :
      (block : FileBlock)
      → validate {E = OtaError} block b f.filesize ≡ ok true
      → block.block_id < file_blocks f.filesize b
  of_file block v = ((validate_iff block b f.filesize receiving.fits).0 v).0

  -- The buffer of a call that writes a block.
  put : FileBlock → Cursor
  put block = written (block.block_id * b) block.block_payload cur

  effect_put :
      (block : FileBlock)
      → validate {E = OtaError} block b f.filesize ≡ ok true
      → is_duplicate block f ≡ false
      → effect_of fs laws parts payload collects c.config f cur (ok block) ≡ some (put block)
  unfolding put
  effect_put block v new =
      let place : usize (block.block_id * b) ≡ block.block_id * b = omega (
        arith,
        in_image block.block_id (of_file block v),
        assembled.sized,
        receiving.fits.sum_fits,
      ) in
      rw (v, new, place)

  put-Assembled :
      (block : FileBlock) (f' : FileContext d)
      → Decodes parts payload c block
      → validate {E = OtaError} block b f.filesize ≡ ok true
      → f'.filesize ≡ f.filesize
      → ((k : ℕ)
          → k * b < length image
          → missing d f' k ≡ false
          → (k ≡ block.block_id) ⊎ (missing d f k ≡ false))
      → Assembled image b f' (put block).inner
  unfolding put written
  put-Assembled block f' q v =
      write_at-Assembled image b f block cur.inner assembled (good block q).1
        (in_image block.block_id (of_file block v)) f'

  -- The buffer that a call leaves, with the bytes of the blocks that are here.
  abbrev Left : FileContext d → Type 0
  Left f' =
      (cur' : Cursor) × (fs.filebuf (ingest_data_block parts payload c).1.world ≡ some cur')
      × Assembled image b f' cur'.inner

  put-Left :
      (block : FileBlock) (f' : FileContext d)
      → Decodes parts payload c block
      → validate {E = OtaError} block b f.filesize ≡ ok true
      → is_duplicate block f ≡ false
      → f'.filesize ≡ f.filesize
      → ((k : ℕ)
          → k * b < length image
          → missing d f' k ≡ false
          → (k ≡ block.block_id) ⊎ (missing d f k ≡ false))
      → Left f'
  put-Left block f' q v new e still = (
    put block,
    buffer
        ∙ ap (effect_of fs laws parts payload collects c.config f cur) (Decodes-decodes_to block q)
        ∙ effect_put block v new,
    put-Assembled block f' q v e still,
  )

  -- A call that leaves the file context as it is.
  same-Left : Left f
  same-Left = elim (Outcome-cases decodes_to) [
    | inl (block, e) ↦ elim (Outcome-cases (validate {E = OtaError} block b f.filesize)) [
      | inl (true, v) ↦ elim (Bool-cases (is_duplicate block f)) [
        | inl dup ↦ (cur, rw (buffer, e, v, dup), assembled)
        | inr new ↦ put-Left block f (decodes_to-Decodes block e) v new refl (λ k l m. inr m)
      ]
      | inl (false, v) ↦ (cur, rw (buffer, e, v), assembled)
      | inr (inl (x, v)) ↦ (cur, rw (buffer, e, v), assembled)
      | inr (inr v) ↦ (cur, rw (buffer, e, v), assembled)
    ]
    | inr (inl (x, e)) ↦ (cur, rw (buffer, e), assembled)
    | inr (inr e) ↦ (cur, rw (buffer, e), assembled)
  ]

  reach : (block : FileBlock) → Decodes parts payload c block → block.block_id < f.block_offset + 32
  reach block q = (good block q).0

  marked :
      (block : FileBlock)
      → Decodes parts payload c block
      → validate {E = OtaError} block b f.filesize ≡ ok true
      → is_duplicate block f ≡ false
      → (k : ℕ) → missing d (mark_received block f) k ≡ (missing d f k && not (k == block.block_id))
  marked block q v new =
      missing-mark_received d bits b f block receiving (of_file block v) (reach block q) new

  ingest-Left :
      (f' : FileContext d)
      → Ending (Decodes parts payload c) c.config f (ingest_data_block parts payload c).0 f'
      → Left f'
  unfolding mark_received
  ingest-Left f' (unchanged n e) = subst Left (sym e) same-Left
  ingest-Left f' (last block q v new n done e) = subst Left (sym e) (
      put-Left block (mark_received block f) q v new refl
        λ k l m. ground (arith, marked block q v new k))
  ingest-Left f' (more block q v new n e w) =
      let still =
        mark_received-IsReceiving d bits b f block receiving (of_file block v) (reach block q)
          new in
      let on = next_window-MovesOn d bits c.config (mark_received block f) still n f' w in
      put-Left block f' q v new on.filesize_kept
        λ k l m. ground (arith, on.same k (of_image k l), marked block q v new k)

  -- The agent with the file handler puts a file together from blocks that carry its bytes, in whatever
  -- order they come and however often. From a context that is receiving the file, with the bytes of
  -- every block that is not missing at their place in the buffer, each call of `ingest_data_block`,
  -- however it ends, leaves such a context and such a buffer again, and where it returns `Ok(true)` the
  -- buffer is the file.
  pub ingest_data_block-assembles :
      (f' : FileContext d) × (cur' : Cursor) × ((ingest_data_block parts payload
          c).1.active_interface
        ≡ some (primary f'))
      × (fs.filebuf (ingest_data_block parts payload c).1.world ≡ some cur')
      × IsReceiving d c.config.block_size f'
      × Assembled image c.config.block_size f' cur'.inner
      × ((ingest_data_block parts payload c).0 ≡ ok true → cur'.inner ≡ image)
  unfolding file_ctx set_file_ctx
  ingest_data_block-assembles =
      let (f', a, e) = ingest_data_block_ending parts payload c (primary f) collects.keeps active in
      let g = Ending-Ingested bits (Decodes parts payload c) c.config f receiving reach _ f' e in
      let (cur', w, put) = ingest-Left f' e in
      (
        f',
        cur',
        a,
        w,
        g.receiving,
        put,
        λ t.
            whole image b f' cur'.inner put receiving.fits.block_pos
              λ k l. g.complete t k (of_image k l),
      )
