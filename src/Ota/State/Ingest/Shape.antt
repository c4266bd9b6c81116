-- ===== src/Ota/State/Ingest/Shape.antt =====
-- `ingest_data_block` of src/ota/state.rs: how a call can end, in terms of the file context alone.
use rustot.Prelude.{
  ℕ, ◌*◌, ◌≡◌, ◌≢◌, ◌⊎◌, inl, inr, refl, Bool, true, false, some, List, Outcome, ok, arith,
  Bool-cases, Outcome-cases, Option-cases, ◌==◌, ◌∙◌, ap, sym, subst,
}
use rustot.Deps.{Deps}
use rustot.Ota.Config.{Config, usize}
use rustot.Ota.Error.{OtaError}
use rustot.Ota.Encoding.{FileContext}
use rustot.Ota.DataInterface.{DataInterface, OnFile, FileBlock, validate}
use rustot.Ota.State.Context.{
  Parts, SmContext, Interface, primary, secondary, file_ctx, set_file_ctx, run_on, choose,
  data_interface,
}
use rustot.Ota.State.Ingest.{
  is_duplicate, mark_received, next_window, after_block, ingest_valid, ingest_block,
  ingest_data_block,
}

module _ {d : Deps} where
  -- The ways in which `ingest_data_block` can end with `r`, from the file context `file` to `file'`,
  -- where `Decoded` holds of the block that came.
  pub data Ending (Decoded : FileBlock → Type 0) (config : Config) (file : FileContext d)
      (r : Outcome OtaError Bool) (file' : FileContext d) : Type 0 where
    unchanged : r ≢ ok true → file' ≡ file → Ending Decoded config file r file'
    last :
        (block : FileBlock)
        → Decoded block
        → validate {E = OtaError} block config.block_size file.filesize ≡ ok true
        → is_duplicate block file ≡ false
        → r ≢ ok false
        → (r ≡ ok true → (mark_received block file).blocks_remaining ≡ 0)
        → file' ≡ mark_received block file
        → Ending Decoded config file r file'
    more :
        (block : FileBlock)
        → Decoded block
        → validate {E = OtaError} block config.block_size file.filesize ≡ ok true
        → is_duplicate block file ≡ false
        → (mark_received block file).blocks_remaining ≢ 0
        → r ≡ ok false
        → next_window config (mark_received block file) ≡ ok file'
        → Ending Decoded config file r file'

  -- A call that leaves the file context as it is.
  abbrev pub KeepsFile : {A : Type 0} → OnFile d A → Type 0
  KeepsFile m = (file : FileContext d) (world : d.World) → (m (file, world)).1.0 ≡ file

  -- The interface with its own file context written back is the interface.
  pub set_file_ctx_self : (i : Interface d) → set_file_ctx (file_ctx i) i ≡ i
  unfolding set_file_ctx file_ctx
  set_file_ctx_self (primary f) = refl
  set_file_ctx_self (secondary f) = refl

  pub file_ctx-set_file_ctx :
      (f : FileContext d) (i : Interface d) → file_ctx (set_file_ctx f i) ≡ f
  unfolding set_file_ctx file_ctx
  file_ctx-set_file_ctx f (primary g) = refl
  file_ctx-set_file_ctx f (secondary g) = refl

  pub set_file_ctx-set_file_ctx :
      (f g : FileContext d) (i : Interface d) → set_file_ctx f (set_file_ctx g i) ≡ set_file_ctx f i
  unfolding set_file_ctx
  set_file_ctx-set_file_ctx f g (primary h) = refl
  set_file_ctx-set_file_ctx f g (secondary h) = refl

module _ {d : Deps} (parts : Parts d) where
  -- The interfaces decode a payload and leave the file context alone.
  pub record DecodeKeepsFile (payload : List ℕ) : Type 0 where
    pub primary_keeps : KeepsFile (parts.data_primary.decode_file_block payload)
    pub secondary_keeps :
        (ds : DataInterface d)
        → parts.data_secondary ≡ some ds
        → KeepsFile (ds.decode_file_block payload)

  run_on-active :
      {A : Type 0} (m : OnFile d A) (i : Interface d) (c : SmContext d)
      → KeepsFile m
      → (run_on m (some i) c).1.active_interface ≡ some i
  run_on-active m i c k =
      ap (λ f. some (set_file_ctx f i)) (k (file_ctx i) c.world) ∙ ap some (set_file_ctx_self i)

  pub decode-active :
      (payload : List ℕ) (c : SmContext d) (i : Interface d)
      → DecodeKeepsFile payload
      → c.active_interface ≡ some i
      → (choose parts (λ di. di.decode_file_block payload) (some i) c).1.active_interface ≡ some i
  decode-active payload c (primary f) k h =
      run_on-active (parts.data_primary.decode_file_block payload) (primary f) c k.primary_keeps
  decode-active payload c (secondary f) k h = elim (Option-cases parts.data_secondary) [
    | inl e ↦ rw e h
    | inr (ds, e) ↦
        rw e (run_on-active (ds.decode_file_block payload) (secondary f) c (k.secondary_keeps ds e))
  ]

  after_block_shape :
      (config : Config) (file : FileContext d) (c : SmContext d) (i : Interface d)
      → c.active_interface ≡ some i
      → let (r, c') = after_block parts config file c in
        ((c'.active_interface ≡ some i)
          × (r ≢ ok false)
          × (r ≡ ok true → file.blocks_remaining ≡ 0))
        ⊎ ((file.blocks_remaining ≢ 0)
            × (r ≡ ok false)
            × (file' : FileContext d) × (next_window config file ≡ ok file')
            × (c'.active_interface ≡ some (set_file_ctx file' i)))
  unfolding after_block
  after_block_shape config file c i h = elim (Bool-cases (file.blocks_remaining == 0)) [
    | inl done ↦ rw done (inl (ground arith))
    | inr rest ↦ rw rest (elim (Outcome-cases (next_window config file)) [
      | inl (file', e) ↦ rw e (inr (ground arith, refl, file', refl, ground arith))
      | inr (inl (x, e)) ↦ rw e (inl (ground arith))
      | inr (inr e) ↦ rw e (inl (ground arith))
    ])
  ]

  -- What the call leaves in the active interface, with the way in which it got there.
  abbrev pub Ended :
      (FileBlock → Type 0)
      → Config
      → FileContext d
      → Interface d
      → Outcome OtaError Bool × SmContext d
      → Type 0
  Ended Decoded config file i (r, c') =
      (file' : FileContext d) × (c'.active_interface ≡ some (set_file_ctx file' i))
      × Ending Decoded config file r file'

  after_block_ending :
      (D : FileBlock → Type 0) (config : Config) (block : FileBlock) (c : SmContext d)
      (i : Interface d)
      → c.active_interface ≡ some (set_file_ctx (mark_received block (file_ctx i)) i)
      → D block
      → validate {E = OtaError} block config.block_size (file_ctx i).filesize ≡ ok true
      → is_duplicate block (file_ctx i) ≡ false
      → Ended D config
          (file_ctx i)
          i
          (after_block parts config (mark_received block (file_ctx i)) c)
  after_block_ending D config block c i h q v n =
      elim (after_block_shape config (mark_received block (file_ctx i)) c
        (set_file_ctx (mark_received block (file_ctx i)) i) h) [
          | inl (a, b, e) ↦ (mark_received block (file_ctx i), a, last block q v n b e refl)
          | inr (z, f, file', w, a) ↦
              (file', a ∙ ap some (set_file_ctx-set_file_ctx file' _ i), more block q v n z f w)
        ]

  ingest_valid_ending :
      (D : FileBlock → Type 0) (config : Config) (block : FileBlock) (c : SmContext d)
      (i : Interface d)
      → c.active_interface ≡ some i
      → D block
      → validate {E = OtaError} block config.block_size (file_ctx i).filesize ≡ ok true
      → Ended D config (file_ctx i) i (ingest_valid parts config block (file_ctx i) c)
  unfolding ingest_valid
  ingest_valid_ending D config block c i h q v =
      let same = h ∙ ap some (sym (set_file_ctx_self i)) in
      elim (Bool-cases (is_duplicate block (file_ctx i))) [
        | inl dup ↦ rw dup (file_ctx i, same, unchanged (λ e. cc) refl)
        | inr new ↦
            rw new
              (elim (Outcome-cases
                (parts.pal.write_block (file_ctx i) (usize (block.block_id * config.block_size))
                  block.block_payload c.world).0) [
                    | inl (n, e) ↦
                        rw e (after_block_ending D config block _ i (ground arith) q v new)
                    | inr (inl (x, e)) ↦ rw e (file_ctx i, same, unchanged (λ z. cc) refl)
                    | inr (inr e) ↦ rw e (file_ctx i, same, unchanged (λ z. cc) refl)
                  ])
      ]

  ingest_block_ending :
      (D : FileBlock → Type 0) (block : FileBlock) (c : SmContext d) (i : Interface d)
      → D block
      → c.active_interface ≡ some i
      → Ended D c.config (file_ctx i) i (ingest_block parts block c)
  unfolding ingest_block
  ingest_block_ending D block c i q h =
      let same = h ∙ ap some (sym (set_file_ctx_self i)) in
      simp h
        (elim (Outcome-cases
          (validate {E = OtaError} block c.config.block_size (file_ctx i).filesize)) [
            | inl (true, e) ↦ rw e (ingest_valid_ending D c.config block c i h q e)
            | inl (false, e) ↦ rw e (file_ctx i, same, unchanged (λ z. cc) refl)
            | inr (inl (x, e)) ↦ rw e (file_ctx i, same, unchanged (λ z. cc) refl)
            | inr (inr e) ↦ rw e (file_ctx i, same, unchanged (λ z. cc) refl)
          ])

  pub choose-config :
      {A : Type 0} (f : DataInterface d → OnFile d A) (i : Interface d) (c : SmContext d)
      → (choose parts f (some i) c).1.config ≡ c.config
  choose-config f (primary file) c = refl
  choose-config f (secondary file) c = ground arith

  -- The block that a payload decodes to.
  abbrev pub Decodes : List ℕ → SmContext d → FileBlock → Type 0
  Decodes payload c block =
      (data_interface parts (λ di. di.decode_file_block payload) c).0 ≡ ok block

  -- Every call ends in one of these ways.
  pub ingest_data_block_ending :
      (payload : List ℕ) (c : SmContext d) (i : Interface d)
      → DecodeKeepsFile payload
      → c.active_interface ≡ some i
      → Ended (Decodes payload c) c.config (file_ctx i) i (ingest_data_block parts payload c)
  unfolding ingest_data_block
  ingest_data_block_ending payload c i k h =
      let decode = λ (di : DataInterface d). di.decode_file_block payload in
      let a = decode-active payload c i k h in
      simp h (elim (Outcome-cases (choose parts decode (some i) c).0) [
        | inl (block, e) ↦ rw e (
            subst
              (λ k.
                Ended (Decodes payload c) k (file_ctx i) i
                  (ingest_block parts block (choose parts decode (some i) c).1))
              (choose-config decode i c)
              (ingest_block_ending (Decodes payload c) block (choose parts decode (some i) c).1 i
                (simp h e) a))
        | inr (inl (x, e)) ↦
            rw e (file_ctx i, a ∙ ap some (sym (set_file_ctx_self i)), unchanged (λ z. cc) refl)
        | inr (inr e) ↦
            rw e (file_ctx i, a ∙ ap some (sym (set_file_ctx_self i)), unchanged (λ z. cc) refl)
      ])
